-- ===== src/TfLabel/Toposort/Start.antt =====
-- The degrees and the queue with which `toposort` of include/algorithm/tflabel.hpp begins.
use network_algo.Prelude.{
  ℕ, zero, suc, ◌+◌, ◌<◌, ◌≡◌, refl, ap, ◌∙◌, inl, Bool, true, false, ◌&&◌, List, [], ◌∷◌, ◌++◌,
  ◌==◌, ltb, leb, if◌then◌else◌, arith, All,
}
use network_algo.TfLabel.{Array, store}
use network_algo.TfLabel.Toposort.{Targets, Search, count_targets, count_degrees, enqueue_sources}
use network_algo.TfLabel.Toposort.Sum.{occ, occ-append, rest_sum, rest_sum-zero}
use network_algo.TfLabel.Toposort.Relax.{All-append}
use network_algo.TfLabel.Toposort.Levels.{Invariant}

count_targets-occ :
    (ys : List ℕ) (deg : Array ℕ) (y : ℕ) → count_targets ys deg y ≡ deg y + occ y ys
unfolding count_targets
count_targets-occ [] deg y = omega arith
count_targets-occ (x ∷ xs) deg y = ground (arith, count_targets-occ xs (store deg x (deg x + 1)) y)

count_degrees-sum :
    (g : Targets) (rounds i n : ℕ) (deg : Array ℕ) (y : ℕ)
    → i + rounds ≡ n
    → count_degrees g rounds i deg y + rest_sum i (λ k. false) (λ k. occ y (g k))
      ≡ deg y + rest_sum n (λ k. false) (λ k. occ y (g k))
unfolding count_degrees
count_degrees-sum g zero i n deg y h =
    ap (λ k. deg y + rest_sum k (λ k. false) (λ k. occ y (g k))) (omega arith)
count_degrees-sum g (suc rounds) i n deg y h = omega (
  arith,
  count_degrees-sum g rounds (suc i) n (count_targets (g i) deg) y (omega arith),
  count_targets-occ (g i) deg y,
)

-- What the second loop does from node `i` on.
record Enqueued (tot i : ℕ) (s s' : Search) : Type 0 where
  degs : (y : ℕ) → s'.deg y ≡ s.deg y
  queued :
      (y : ℕ)
      → occ y s'.queue ≡ occ y s.queue + (if leb i y && ltb y tot && (s.deg y == 0) then 1 else 0)
  level : (y : ℕ) → s'.tln y ≡ (if leb i y && ltb y tot && (s.deg y == 0) then 1 else s.tln y)
  bounded : All (λ z. z < tot) s.queue → All (λ z. z < tot) s'.queue

abbrev pub enqueue : ℕ → Search → Search
enqueue i s =
    if s.deg i == 0 then record s { queue = s.queue ++ i ∷ []; tln = store s.tln i 1 } else s

enqueue-degs : (i : ℕ) (s : Search) (y : ℕ) → (enqueue i s).deg y ≡ s.deg y
enqueue-degs i s y = ground arith

enqueue-queued :
    (i : ℕ) (s : Search) (y : ℕ)
    → occ y (enqueue i s).queue ≡ occ y s.queue + (if (i == y) && (s.deg y == 0) then 1 else 0)
enqueue-queued i s y = ground (arith, occ-append y s.queue (i ∷ []))

enqueue-level :
    (i : ℕ) (s : Search) (y : ℕ)
    → (enqueue i s).tln y ≡ (if (i == y) && (s.deg y == 0) then 1 else s.tln y)
enqueue-level i s y = ground arith

enqueue_if :
    (b : Bool) (tot i : ℕ) (s : Search)
    → i < tot
    → All (λ z. z < tot) s.queue
    → All
        (λ z. z < tot)
        (if b then record s { queue = s.queue ++ i ∷ []; tln = store s.tln i 1 } else s).queue
enqueue_if true tot i s h b = All-append (λ z. z < tot) s.queue (i ∷ []) b (h, tt)
enqueue_if false tot i s h b = b

enqueue_sources-Enqueued :
    (tot rounds i : ℕ) (s : Search)
    → i + rounds ≡ tot
    → Enqueued tot i s (enqueue_sources rounds i s)
unfolding enqueue_sources
enqueue_sources-Enqueued tot zero i s h = record {
  degs = λ y. refl;
  queued = λ y. ground arith;
  level = λ y. ground arith;
  bounded = λ b. b;
}
enqueue_sources-Enqueued tot (suc rounds) i s h =
    let r = enqueue_sources-Enqueued tot rounds (suc i) (enqueue i s) (omega arith) in
    record {
      degs = λ y. r.degs y ∙ enqueue-degs i s y;
      queued = λ y. ground (arith, r.queued y, enqueue-queued i s y, enqueue-degs i s y);
      level = λ y. ground (arith, r.level y, enqueue-level i s y, enqueue-degs i s y);
      bounded = λ b. r.bounded (enqueue_if (s.deg i == 0) tot i s (omega arith) b);
    }

pub start-Invariant :
    (tot : ℕ) (g : Targets)
    → Invariant tot g
        (λ x. false)
        (enqueue_sources tot 0
          (record { deg = count_degrees g tot 0 (λ i. 0); tln = λ i. 0; queue = []; maxx = 0 }))
start-Invariant tot g =
    let s₀ : Search = record {
      deg = count_degrees g tot 0 (λ i. 0);
      tln = λ i. 0;
      queue = [];
      maxx = 0;
    } in
    let r = enqueue_sources-Enqueued tot tot 0 s₀ (omega arith) in
    let sum = λ (y : ℕ). count_degrees-sum g tot 0 tot (λ i. 0) y (omega arith) in
    record {
      counts = record {
        degs = λ y u. omega (arith, r.degs y, sum y);
        held = λ y u. ground (arith, r.queued y, r.degs y);
      };
      bounded = r.bounded tt;
      in_graph = λ x h. cc;
      relaxed = λ x y h e. cc;
      reached = λ y. inl (ground (arith, r.level y));
      sources = λ y u none_in. ground (
        arith,
        sum y,
        r.level y,
        rest_sum-zero tot (λ k. false) (λ k. occ y (g k)) (λ i v e. none_in i v),
      );
    }
