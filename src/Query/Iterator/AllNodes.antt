-- ===== src/Query/Iterator/AllNodes.antt =====
-- The results of a query with one node, such as `select (a) return a`: findNextPossible of
-- include/backend/leveldbgraph_iterator.inc goes through the keys of the database, in their order.
pub mod OneNode
pub mod Step
pub mod Loop
use network_algo.Prelude.{
  ℕ, ◌<◌, ◌≡◌, refl, ap, ◌∙◌, ◌⊎◌, Bool, true, false, some, List, [], ◌∷◌, ◌++◌, Text, length,
  if◌then◌else◌, arith, inl, inr, Bool-cases, Option-cases, All,
}
use network_algo.Graph.IdSet.{text_lt}
use network_algo.Graph.Keys.{Suffix, suffix_text, add_suffix}
use network_algo.Query.Iterator.Candidates.{before_suffix, ids_with_suffix}
use network_algo.Query.Iterator.Next.{seek}

-- The keys of a database in their order, none of them twice.
abbrev pub IsSorted : List Text → Type 0
IsSorted [] = Unit
IsSorted (x ∷ xs) = All (λ y. text_lt x y ≡ true) xs × IsSorted xs

-- A key with the suffix of a node ends with it.
abbrev pub IsNodeKey : Text → Type 0
IsNodeKey key =
    (id : Text)
    → before_suffix (suffix_text Suffix.node_data) key ≡ some id
    → key ≡ add_suffix id Suffix.node_data

text_lt_irrefl : (s : Text) → text_lt s s ≡ false
unfolding text_lt
text_lt_irrefl [] = refl
text_lt_irrefl (c ∷ s) = ground (arith, text_lt_irrefl s)

seek-here : (k : Text) (xs : List Text) → seek k (k ∷ xs) ≡ k ∷ xs
unfolding seek
seek-here k xs = rw (text_lt_irrefl k)

-- From a key on, the keys are those that stand behind it.
pub seek-middle :
    (front : List Text) (k : Text) (rest : List Text)
    → IsSorted (front ++ (k ∷ rest))
    → seek k (front ++ (k ∷ rest)) ≡ k ∷ rest
unfolding seek
seek-middle [] k rest h = seek-here k rest
seek-middle (x ∷ front) k rest h =
    let below : text_lt x k ≡ true = middle front h.0 in rw below (seek-middle front k rest h.1)
  where
    middle :
        (ys : List Text) → All (λ y. text_lt x y ≡ true) (ys ++ (k ∷ rest)) → text_lt x k ≡ true
    middle [] a = a.0
    middle (y ∷ ys) a = middle ys a.1

abbrev pub node_ids : List Text → List Text
node_ids ks = ids_with_suffix (suffix_text Suffix.node_data) ks

-- The ids that pass a test.
abbrev pub selected : (Text → Bool) → List Text → List Text
selected passes [] = []
selected passes (x ∷ xs) = if passes x then x ∷ selected passes xs else selected passes xs

-- Whether some id passes, and the last that was tried, which is `y` if there is none.
abbrev pub after : (Text → Bool) → List Text → Text → Bool × Text
after passes [] y = (false, y)
after passes (x ∷ xs) y = if passes x then (true, x) else after passes xs x

-- The first key of which the id passes.
pub record FirstPassing (passes : Text → Bool) (ks : List Text) (y : Text) : Type 0 where
  pub front : List Text
  pub key : Text
  pub id : Text
  pub rest : List Text
  pub parts : ks ≡ front ++ (key ∷ rest)
  pub named : before_suffix (suffix_text Suffix.node_data) key ≡ some id
  pub tried : after passes (node_ids ks) y ≡ (true, id)
  pub chosen : selected passes (node_ids ks) ≡ id ∷ selected passes (node_ids rest)
  pub shorter : length rest < length ks

skip :
    (passes : Text → Bool) (k : Text) (ks : List Text) (y z : Text)
    → FirstPassing passes ks z
    → after passes (node_ids (k ∷ ks)) y ≡ after passes (node_ids ks) z
    → selected passes (node_ids (k ∷ ks)) ≡ selected passes (node_ids ks)
    → FirstPassing passes (k ∷ ks) y
skip passes k ks y z f a b = record {
  front = k ∷ f.front;
  key = f.key;
  id = f.id;
  rest = f.rest;
  parts = ap (λ l. k ∷ l) f.parts;
  named = f.named;
  tried = a ∙ f.tried;
  chosen = b ∙ f.chosen;
  shorter = omega (arith, f.shorter);
}

pub first_or_none :
    (passes : Text → Bool) (ks : List Text) (y : Text)
    → FirstPassing passes ks y
      ⊎ (((after passes (node_ids ks) y).0 ≡ false) × (selected passes (node_ids ks) ≡ []))
unfolding ids_with_suffix
first_or_none passes [] y = inr (refl, refl)
first_or_none passes (k ∷ ks) y =
    elim (Option-cases (before_suffix (suffix_text Suffix.node_data) k)) [
      | inl other ↦ elim (first_or_none passes ks y) [
        | inl f ↦ inl (skip passes k ks y y f (ground (arith, other)) (ground (arith, other)))
        | inr (a, b) ↦ inr (ground (arith, other, a), ground (arith, other, b))
      ]
      | inr (id, named) ↦ elim (Bool-cases (passes id)) [
        | inl good ↦ inl (record {
          front = [];
          key = k;
          id = id;
          rest = ks;
          parts = refl;
          named = named;
          tried = ground (arith, named, good);
          chosen = ground (arith, named, good);
          shorter = omega arith;
        })
        | inr bad ↦ elim (first_or_none passes ks id) [
          | inl f ↦
              inl
                (skip passes k ks y id f (ground (arith, named, bad)) (ground (arith, named, bad)))
          | inr (a, b) ↦ inr (ground (arith, named, bad, a), ground (arith, named, bad, b))
        ]
      ]
    ]
