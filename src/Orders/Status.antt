-- ===== src/Orders/Status.antt =====
-- handlers/po_edit.go: the life of a purchase order as a relation between statuses, and what
-- `isValidStatusTransition` has to do with it.
use project_tracker.Prelude.{
  ℕ, ◌≤◌, ◌<◌, String, ◌==◌, ◌≡◌, ◌⊎◌, ◌↔◌, inl, inr, refl, sym, ◌∙◌, subst, true, false,
  if◌then◌else◌, Bool-cases, eq_iff, arith,
}
use project_tracker.Orders.{is_valid_status_transition, status_refused}

-- A step in the life of an order.
pub data Allowed : String → String → Type 0 where
  send : Allowed "draft" "sent"
  acknowledge : Allowed "sent" "acknowledged"
  complete : Allowed "acknowledged" "completed"
  cancel : (s : String) → Allowed s "cancelled"

-- Any number of steps.
pub data Reaches : String → String → Type 0 where
  here : (s : String) → Reaches s s
  then_step : (s t u : String) → Reaches s t → Allowed t u → Reaches s u

Allowed-valid : (s t : String) → Allowed s t → is_valid_status_transition s t ≡ true
unfolding is_valid_status_transition
Allowed-valid _ _ send = refl
Allowed-valid _ _ acknowledge = refl
Allowed-valid _ _ complete = refl
Allowed-valid _ _ (cancel s) = refl

same : (s t : String) → (s == t) ≡ true → s ≡ t
same s t h = (eq_iff s t).0 h

as_step : (s t a b : String) → (s == a) ≡ true → (t == b) ≡ true → Allowed a b → Allowed s t
as_step s t a b e f step =
    subst (λ x. Allowed x t) (sym (same s a e)) (subst (Allowed a) (sym (same t b f)) step)

valid-Allowed : (s t : String) → is_valid_status_transition s t ≡ true → Allowed s t
unfolding is_valid_status_transition
valid-Allowed s t h = elim (Bool-cases (t == "cancelled")) [
  | inl c ↦ subst (Allowed s) (sym (same t "cancelled" c)) (cancel s)
  | inr c ↦ elim (Bool-cases (s == "draft")) [
    | inl d ↦ as_step s t "draft" "sent" d (rw (c, d) at h) send
    | inr d ↦ elim (Bool-cases (s == "sent")) [
      | inl e ↦ as_step s t "sent" "acknowledged" e (rw (c, d, e) at h) acknowledge
      | inr e ↦ elim (Bool-cases (s == "acknowledged")) [
        | inl f ↦ as_step s t "acknowledged" "completed" f (rw (c, d, e, f) at h) complete
        | inr f ↦ absurd (cc (rw (c, d, e, f) at h))
      ]
    ]
  ]
]

-- isValidStatusTransition accepts exactly the steps from draft to sent, from sent to acknowledged,
-- from acknowledged to completed, and from any status to cancelled.
pub is_valid_status_transition-Allowed :
    (s t : String) → (is_valid_status_transition s t ≡ true) ↔ Allowed s t
is_valid_status_transition-Allowed s t = (valid-Allowed s t, Allowed-valid s t)

-- How far an order has come.
abbrev pub rank : String → ℕ
rank s =
    if s == "draft"
    then 0
    else if s == "sent"
    then 1
    else if s == "acknowledged"
    then 2
    else if s == "cancelled"
    then 4
    else 3

Allowed-rank : (s t : String) → Allowed s t → (rank s < rank t) ⊎ (s ≡ t)
Allowed-rank _ _ send = inl (omega arith)
Allowed-rank _ _ acknowledge = inl (omega arith)
Allowed-rank _ _ complete = inl (omega arith)
Allowed-rank _ _ (cancel s) = elim (Bool-cases (s == "cancelled")) [
  | inl done ↦ inr (same s "cancelled" done)
  | inr far ↦ inl (ground arith)
]

Reaches-rank : (s t : String) → Reaches s t → rank s ≤ rank t
Reaches-rank s _ (here _) = omega arith
Reaches-rank s u (then_step _ t _ r a) = elim (Allowed-rank t u a) [
  | inl up ↦ omega (arith, Reaches-rank s t r)
  | inr stay ↦ subst (λ x. rank s ≤ rank x) stay (Reaches-rank s t r)
]

rank-zero : (s : String) → rank s ≤ 0 → s ≡ "draft"
rank-zero s h = elim (Bool-cases (s == "draft")) [
  | inl first ↦ same s "draft" first
  | inr later ↦ absurd (ground arith)
]

pub Reaches-draft : (s : String) → Reaches s "draft" → s ≡ "draft"
Reaches-draft s r = rank-zero s (Reaches-rank s "draft" r)

-- A change of status that HandlePOUpdate does not refuse keeps the status or is a step.
pub not_refused :
    (s n : String)
    → status_refused s n ≡ false
    → ((if n == "" then s else n) ≡ s) ⊎ Allowed s (if n == "" then s else n)
unfolding status_refused
not_refused s n h = elim (Bool-cases (n == "")) [
  | inl blank ↦ rw blank (inl refl)
  | inr named ↦ elim (Bool-cases (n == "draft")) [
    | inl draft ↦ elim (Bool-cases (s == "draft")) [
      | inl stay ↦ rw named (inl (same n "draft" draft ∙ sym (same s "draft" stay)))
      | inr moved ↦ absurd (cc (rw (named, draft, moved) at h))
    ]
    | inr other ↦ elim (Bool-cases (is_valid_status_transition s n)) [
      | inl valid ↦ rw named (inr (valid-Allowed s n valid))
      | inr bad ↦ absurd (cc (rw (named, other, bad) at h))
    ]
  ]
]
