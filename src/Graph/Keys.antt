-- ===== src/Graph/Keys.antt =====
-- The keys of the database: `addSuffix` of include/backend/leveldbgraph_db_utility.inc.
use network_algo.Prelude.{
  ◌≡◌, refl, sym, ap, ◌∙◌, [], ◌∷◌, ◌++◌, Text, codes, arith, ℕ, zero, suc, text_eq, text_eq_iff,
  false, Bool-cases, inl, inr, ◌≢◌,
}
use mathlib.Core.List.{reverse, reverse-append, append_cancel_right}

-- The four suffix constants.
pub data Suffix : Type 0 where
  node_data edge_data out_edge in_edge : Suffix

unfoldable pub suffix_text : Suffix → Text
suffix_text Suffix.node_data = codes ":node:@data"
suffix_text Suffix.edge_data = codes ":edge:@data"
suffix_text Suffix.out_edge = codes ":@outedge"
suffix_text Suffix.in_edge = codes ":@inedge"

unfoldable pub add_suffix : Text → Suffix → Text
unfolding suffix_text
add_suffix id s = id ++ suffix_text s

-- The character at a place, or zero.
abbrev nth_or_zero : ℕ → Text → ℕ
nth_or_zero n [] = 0
nth_or_zero zero (c ∷ s) = c
nth_or_zero (suc n) (c ∷ s) = nth_or_zero n s

-- Read from their ends, the suffixes differ.
same_suffix :
    (a b : Text) (s t : Suffix)
    → reverse (suffix_text s) ++ a ≡ reverse (suffix_text t) ++ b
    → s ≡ t
unfolding suffix_text
same_suffix a b Suffix.node_data Suffix.node_data h = refl
same_suffix a b Suffix.node_data Suffix.edge_data h =
    absurd (omega (arith, ap (λ l. nth_or_zero 7 l) h))
same_suffix a b Suffix.node_data Suffix.out_edge h =
    absurd (omega (arith, ap (λ l. nth_or_zero 7 l) h))
same_suffix a b Suffix.node_data Suffix.in_edge h =
    absurd (omega (arith, ap (λ l. nth_or_zero 7 l) h))
same_suffix a b Suffix.edge_data Suffix.node_data h =
    absurd (omega (arith, ap (λ l. nth_or_zero 7 l) h))
same_suffix a b Suffix.edge_data Suffix.edge_data h = refl
same_suffix a b Suffix.edge_data Suffix.out_edge h =
    absurd (omega (arith, ap (λ l. nth_or_zero 7 l) h))
same_suffix a b Suffix.edge_data Suffix.in_edge h =
    absurd (omega (arith, ap (λ l. nth_or_zero 7 l) h))
same_suffix a b Suffix.out_edge Suffix.node_data h =
    absurd (omega (arith, ap (λ l. nth_or_zero 7 l) h))
same_suffix a b Suffix.out_edge Suffix.edge_data h =
    absurd (omega (arith, ap (λ l. nth_or_zero 7 l) h))
same_suffix a b Suffix.out_edge Suffix.out_edge h = refl
same_suffix a b Suffix.out_edge Suffix.in_edge h =
    absurd (omega (arith, ap (λ l. nth_or_zero 7 l) h))
same_suffix a b Suffix.in_edge Suffix.node_data h =
    absurd (omega (arith, ap (λ l. nth_or_zero 7 l) h))
same_suffix a b Suffix.in_edge Suffix.edge_data h =
    absurd (omega (arith, ap (λ l. nth_or_zero 7 l) h))
same_suffix a b Suffix.in_edge Suffix.out_edge h =
    absurd (omega (arith, ap (λ l. nth_or_zero 7 l) h))
same_suffix a b Suffix.in_edge Suffix.in_edge h = refl

-- A key has one suffix.
add_suffix-suffix : (a b : Text) (s t : Suffix) → add_suffix a s ≡ add_suffix b t → s ≡ t
unfolding add_suffix suffix_text
add_suffix-suffix a b s t h =
    same_suffix (reverse a) (reverse b) s t
      (sym (reverse-append a (suffix_text s)) ∙ ap reverse h ∙ reverse-append b (suffix_text t))

-- A key determines its id and its suffix.
pub add_suffix-injective :
    (a b : Text) (s t : Suffix) → add_suffix a s ≡ add_suffix b t → (a ≡ b) × (s ≡ t)
unfolding add_suffix
add_suffix-injective a b s t h =
    let e = add_suffix-suffix a b s t h in
    (append_cancel_right a b (suffix_text t) (ap (λ u. a ++ suffix_text u) (sym e) ∙ h), e)

pub text_eq-same_suffix :
    (a b : Text) (s : Suffix) → text_eq (add_suffix a s) (add_suffix b s) ≡ text_eq a b
text_eq-same_suffix a b s = elim (Bool-cases (text_eq a b)) [
  | inl q ↦
      (text_eq_iff (add_suffix a s) (add_suffix b s)).1
        (ap (λ u. add_suffix u s) ((text_eq_iff a b).0 q))
      ∙ sym q
  | inr q ↦ elim (Bool-cases (text_eq (add_suffix a s) (add_suffix b s))) [
    | inl p ↦
        p
        ∙ sym (
            (text_eq_iff a b).1
              (add_suffix-injective a b s s
                ((text_eq_iff (add_suffix a s) (add_suffix b s)).0 p)).0)
    | inr p ↦ p ∙ sym q
  ]
]

pub text_eq-other_suffix :
    (a b : Text) (s t : Suffix) → s ≢ t → text_eq (add_suffix a s) (add_suffix b t) ≡ false
text_eq-other_suffix a b s t other = elim (Bool-cases (text_eq (add_suffix a s) (add_suffix b t))) [
  | inl p ↦
      absurd (
        other
          (add_suffix-injective a b s t ((text_eq_iff (add_suffix a s) (add_suffix b t)).0 p)).1)
  | inr p ↦ p
]
