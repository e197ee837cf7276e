-- ===== src/TfLabel/Removing/Bounded.antt =====
-- The labels of include/algorithm/tflabel.hpp are numbers of nodes, and at the end of components.
use network_algo.Prelude.{
  ℕ, zero, suc, ◌≤◌, ◌<◌, ◌≡◌, refl, sym, subst, List, [], ◌∷◌, ◌==◌, arith, All, length,
  Bool-cases, inl, inr,
}
use network_algo.TfLabel.{Array, store}
use network_algo.TfLabel.Labels.{
  elem, insert, insert_all, gather, close_labels, replace_labels, unsplit,
}
use network_algo.TfLabel.Splitting.Invariant.{IsFathered}
use network_algo.TfLabel.Removing.{Labelling, settle}

-- Every label is below a bound.
abbrev pub Below : ℕ → List ℕ → Type 0
Below m labels = All (λ e. e < m) labels

insert-Below : (m x : ℕ) (ys : List ℕ) → x < m → Below m ys → Below m (insert x ys)
unfolding insert
insert-Below m x ys h a = elim (Bool-cases (elem x ys)) [
  | inl old ↦ rw old a
  | inr new ↦ rw new (h, a)
]

insert_all-Below : (m : ℕ) (xs ys : List ℕ) → Below m xs → Below m ys → Below m (insert_all xs ys)
unfolding insert_all
insert_all-Below m [] ys a b = b
insert_all-Below m (x ∷ xs) ys a b =
    insert_all-Below m xs (insert x ys) a.1 (insert-Below m x ys a.0 b)

abbrev AllBelow : ℕ → Array (List ℕ) → Type 0
AllBelow m labels = (k : ℕ) → Below m (labels k)

store-AllBelow :
    (m i : ℕ) (labels : Array (List ℕ)) (ys : List ℕ)
    → AllBelow m labels
    → Below m ys
    → AllBelow m (store labels i ys)
store-AllBelow m i labels ys a b k = elim (Bool-cases (i == k)) [
  | inl here ↦ rw here b
  | inr other ↦ rw other (a k)
]

gather-AllBelow :
    (m i : ℕ) (tmp : List ℕ) (labels : Array (List ℕ))
    → AllBelow m labels
    → AllBelow m (gather i tmp labels)
unfolding gather
gather-AllBelow m i [] labels a = a
gather-AllBelow m i (ele ∷ tmp) labels a =
    gather-AllBelow m i tmp (store labels i (insert_all (labels ele) (labels i))) (
      store-AllBelow m i labels (insert_all (labels ele) (labels i)) a
        (insert_all-Below m (labels ele) (labels i) (a ele) (a i)))

close_labels-AllBelow :
    (m n : ℕ) (labels : Array (List ℕ)) → AllBelow m labels → AllBelow m (close_labels n labels)
unfolding close_labels
close_labels-AllBelow m zero labels a = a
close_labels-AllBelow m (suc i) labels a =
    close_labels-AllBelow m i (gather i (labels i) labels) (gather-AllBelow m i (labels i) labels a)

module _ (tot scc_cnt : ℕ) (fa : Array ℕ) (fathered : IsFathered scc_cnt (tot, fa)) where
  replace_labels-Below :
      (tmp labels : List ℕ)
      → Below tot tmp
      → Below scc_cnt labels
      → Below scc_cnt (replace_labels fa tmp labels)
  unfolding replace_labels
  replace_labels-Below [] labels a b = b
  replace_labels-Below (ele ∷ tmp) labels a b =
      replace_labels-Below tmp (insert (fa ele) labels) a.1
        (insert-Below scc_cnt (fa ele) labels (fathered.below ele a.0) b)

  unsplit-outside : (n k : ℕ) (labels : Array (List ℕ)) → n ≤ k → unsplit fa n labels k ≡ labels k
  unfolding unsplit
  unsplit-outside zero k labels h = refl
  unsplit-outside (suc i) k labels h = ground (arith, h, unsplit-outside i k labels (omega arith))

  unsplit-Below :
      (n k : ℕ) (labels : Array (List ℕ))
      → AllBelow tot labels
      → k < n
      → Below scc_cnt (unsplit fa n labels k)
  unfolding unsplit
  unsplit-Below zero k labels a h = absurd (omega arith)
  unsplit-Below (suc i) k labels a h = elim (Bool-cases (i == k)) [
    | inl here ↦ rw here (
        replace_labels-Below (unsplit fa i labels i) []
          (subst (Below tot) (sym (unsplit-outside i i labels (omega arith))) (a i)) tt)
    | inr other ↦ rw other (unsplit-Below i k labels a (ground (arith, other, h)))
  ]

  abbrev pub IsBounded : Labelling → Type 0
  IsBounded labels = (k : ℕ) → Below tot (labels.label_in k) × Below tot (labels.label_out k)

  -- If fa gives each node below tot a component below scc_cnt, and every label is a node below tot, then after
  -- the loops that follow part (c) every label of a component is a component below scc_cnt, and every
  -- label of another node is still a node below tot.
  pub settle-bounded :
      (labels : Labelling)
      → IsBounded labels
      → (k : ℕ)
      → (k < scc_cnt
          → Below scc_cnt ((settle fa scc_cnt labels).label_in k)
            × Below scc_cnt ((settle fa scc_cnt labels).label_out k))
        × (scc_cnt ≤ k
            → Below tot ((settle fa scc_cnt labels).label_in k)
              × Below tot ((settle fa scc_cnt labels).label_out k))
  unfolding settle
  settle-bounded labels a k =
      let ins = close_labels-AllBelow tot (length labels.order) labels.label_in (λ i. (a i).0) in
      let outs = close_labels-AllBelow tot (length labels.order) labels.label_out (λ i. (a i).1) in
      (
        λ h. (unsplit-Below scc_cnt k _ ins h, unsplit-Below scc_cnt k _ outs h),
        λ h. (
          subst (Below tot) (sym (unsplit-outside scc_cnt k _ h)) (ins k),
          subst (Below tot) (sym (unsplit-outside scc_cnt k _ h)) (outs k),
        ),
      )
