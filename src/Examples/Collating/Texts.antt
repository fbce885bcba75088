-- ===== src/Examples/Collating/Texts.antt =====
-- The order of texts by the numbers of their characters, which is linear.
use Prim.Native.Char.{Char, code}
use Prim.Native.String.{String, [], ◌∷◌}
use hypertrace.Prelude.{◌≡◌, refl, ap, ◌∙◌, Bool, true, false, ltb, arith, if◌then◌else◌}
use text.Mathlib.TextEquality.{codes_equal}
use hypertrace.Bff.Dashboard.Summary.{IsCollation}

abbrev pub not_after : String → String → Bool
not_after [] t = true
not_after (c ∷ s) [] = false
not_after (c ∷ s) (d ∷ t) =
    let rest = not_after s t in
    if ltb (code c) (code d) then true else if ltb (code d) (code c) then false else rest

same_code : (c d : Char) → ltb (code c) (code d) ≡ false → ltb (code d) (code c) ≡ false → c ≡ d
same_code c d h k = codes_equal c d (ground arith)

not_after_total : (s t : String) → not_after s t ≡ false → not_after t s ≡ true
not_after_total [] t h = cc
not_after_total (c ∷ s) [] h = refl
not_after_total (c ∷ s) (d ∷ t) h = ground (arith, not_after_total s t)

not_after_trans :
    (s t u : String) → not_after s t ≡ true → not_after t u ≡ true → not_after s u ≡ true
not_after_trans [] t u h k = refl
not_after_trans (c ∷ s) [] u h k = cc
not_after_trans (c ∷ s) (d ∷ t) [] h k = cc
not_after_trans (c ∷ s) (d ∷ t) (e ∷ u) h k = ground (arith, not_after_trans s t u)

not_after_antisym : (s t : String) → not_after s t ≡ true → not_after t s ≡ true → s ≡ t
not_after_antisym [] [] h k = refl
not_after_antisym [] (d ∷ t) h k = cc
not_after_antisym (c ∷ s) [] h k = cc
not_after_antisym (c ∷ s) (d ∷ t) h k =
    let first = same_code c d (ground arith) (ground arith) in
    let rest = not_after_antisym s t (ground arith) (ground arith) in
    ap (λ x. x ∷ s) first ∙ ap (λ x. d ∷ x) rest

pub not_after-IsCollation : IsCollation not_after
not_after-IsCollation = record {
  text_total = not_after_total;
  text_trans = not_after_trans;
  text_antisym = not_after_antisym;
}
