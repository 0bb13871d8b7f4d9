-- ===== src/Shipment/Keys.antt =====
-- `ParseShipmentItemsFromForm`: one item for each key of the form.
