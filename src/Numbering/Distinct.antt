-- ===== src/Numbering/Distinct.antt =====
-- The default number format, and that it tells documents of one sequence apart.
use Prim.Native.Nat.{ℕ}
use project_tracker.Prelude.{String, ◌≡◌, refl, sym, ◌∙◌, ap}
use project_tracker.Prelude.Int.{ℤ, pos}
use project_tracker.Prelude.Text.{◌<>◌, format_padded, replace_from, replace_all}
use project_tracker.Prelude.Text.Decimal.{zero_padded-injective}
use project_tracker.Prelude.Text.Replace.{
  NoBrace, NoBrace-<>, zero_padded-NoBrace, replace_skips, replace_none,
}
use project_tracker.Numbering.Format.{type_code, format_doc_number, default_format}

<>-injective : (s t u : String) → s <> t ≡ s <> u → t ≡ u
<>-injective String.[] t u e = e
<>-injective (String.◌∷◌ c s) t u e = <>-injective s t u (cc)

-- The passes of `FormatDocNumber` over the default format, one for each token.
module _ (a b c d e : String) (ha : NoBrace a) (hb : NoBrace b) where
  pass_sep :
      replace_from "{SEP}" b 0 (a <> "{SEP}{TYPE}{SEP}{FY}{SEP}{SEQ}")
      ≡ a <> b <> "{TYPE}" <> b <> "{FY}" <> b <> "{SEQ}"
  unfolding replace_from
  pass_sep = replace_skips "{SEP}" b a _ refl ha

  pass_type :
      replace_from "{TYPE}" c 0 (a <> b <> "{TYPE}" <> b <> "{FY}" <> b <> "{SEQ}")
      ≡ a <> b <> c <> b <> "{FY}" <> b <> "{SEQ}"
  unfolding replace_from
  pass_type = rw (
    replace_skips "{TYPE}" c a _ refl ha,
    replace_skips "{TYPE}" c b _ refl hb,
    replace_skips "{TYPE}" c b _ refl hb,
    replace_skips "{TYPE}" c b _ refl hb,
  )

  pass_fy :
      NoBrace c
      → replace_from "{FY}" d 0 (a <> b <> c <> b <> "{FY}" <> b <> "{SEQ}")
        ≡ a <> b <> c <> b <> d <> b <> "{SEQ}"
  unfolding replace_from
  pass_fy hc = rw (
    replace_skips "{FY}" d a _ refl ha,
    replace_skips "{FY}" d b _ refl hb,
    replace_skips "{FY}" d c _ refl hc,
    replace_skips "{FY}" d b _ refl hb,
    replace_skips "{FY}" d b _ refl hb,
  )

  pass_seq :
      NoBrace c
      → NoBrace d
      → replace_from "{SEQ}" e 0 (a <> b <> c <> b <> d <> b <> "{SEQ}")
        ≡ a <> b <> c <> b <> d <> b <> e <> ""
  unfolding replace_from
  pass_seq hc hd = rw (
    replace_skips "{SEQ}" e a _ refl ha,
    replace_skips "{SEQ}" e b _ refl hb,
    replace_skips "{SEQ}" e c _ refl hc,
    replace_skips "{SEQ}" e b _ refl hb,
    replace_skips "{SEQ}" e d _ refl hd,
    replace_skips "{SEQ}" e b _ refl hb,
  )

<>-empty : (s : String) → s <> "" ≡ s
<>-empty String.[] = refl
<>-empty (String.◌∷◌ c s) = ap (String.◌∷◌ c) (<>-empty s)

module _ (to_upper : String → String) (sep prefix seq_type fy proj_ref : String)
    (sep_plain : NoBrace sep) (prefix_plain : NoBrace prefix)
    (type_plain : NoBrace (type_code to_upper seq_type)) (fy_plain : NoBrace fy) where
  -- With the default format, and parts with no opening brace, the number is the parts in order.
  format_default :
      (seq padding : ℤ)
      → NoBrace (format_padded padding seq)
      → format_doc_number to_upper default_format sep prefix seq_type fy seq padding proj_ref
        ≡ prefix
          <> sep
          <> type_code to_upper seq_type
          <> sep
          <> fy
          <> sep
          <> format_padded padding seq
  unfolding format_doc_number replace_all
  format_default seq padding seq_plain =
      let c = type_code to_upper seq_type in
      let e = format_padded padding seq in
      let whole : NoBrace (prefix <> sep <> c <> sep <> fy <> sep <> e) =
        NoBrace-<> prefix _ prefix_plain (
          NoBrace-<> sep _ sep_plain (
            NoBrace-<> c _ type_plain (
              NoBrace-<> sep _ sep_plain
                (NoBrace-<> fy _ fy_plain (NoBrace-<> sep _ sep_plain seq_plain))))) in
      rw (
        pass_sep prefix sep c fy e prefix_plain sep_plain,
        pass_type prefix sep c fy e prefix_plain sep_plain,
        pass_fy prefix sep c fy e prefix_plain sep_plain type_plain,
        pass_seq prefix sep c fy e prefix_plain sep_plain type_plain fy_plain,
        <>-empty e,
        replace_none "{PROJECT_REF}" proj_ref _ refl whole,
      )

  -- With the default format, and parts with no opening brace, documents of one sequence that have
  -- different numbers are numbered differently.
  pub format_default-injective :
      (width m n : ℕ)
      → format_doc_number to_upper default_format sep prefix seq_type fy
          (pos m)
          (pos width)
          proj_ref
        ≡ format_doc_number to_upper default_format sep prefix seq_type fy
            (pos n)
            (pos width)
            proj_ref
      → m ≡ n
  unfolding format_padded
  format_default-injective width m n e =
      let same : _ =
        sym (format_default (pos m) (pos width) (zero_padded-NoBrace width m))
        ∙ e
        ∙ format_default (pos n) (pos width) (zero_padded-NoBrace width n) in
      zero_padded-injective width m n (
        <>-injective sep _ _ (
          <>-injective fy _ _ (
            <>-injective sep _ _ (
              <>-injective (type_code to_upper seq_type) _ _
                (<>-injective sep _ _ (<>-injective prefix _ _ same))))))
