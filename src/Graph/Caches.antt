-- ===== src/Graph/Caches.antt =====
-- The caches of `LevelDbGraph` (include/backend/leveldbgraph.hpp) hold what the database will hold
-- once the batch is written, and reading and writing a node's edges keeps it so.
use network_algo.Prelude.{
  ℕ, suc, ◌≤◌, ◌≡◌, refl, sym, ap, ◌∙◌, none, some, List, [], Text, text_eq, Text_eq, if◌then◌else◌,
  ◌&&◌, arith,
}
use network_algo.Containers.Assoc.{lookup}
use network_algo.MruMap.Room.{HasRoom, HasRoom-weaken, find-HasRoom, store-HasRoom, empty-HasRoom}
use network_algo.Graph.Keys.{add_suffix}
use network_algo.Graph.Storage.{LevelDb, Schema}
use network_algo.Graph.IdSet
use network_algo.Graph.Operations.{
  Side, suffix_of, Cache, Graph, open_graph, edge_cache_size, cache, with_cache, stored_ids,
  get_ids, set_ids, enter_id, leave_id, ◌>>=◌,
}
use network_algo.Graph.View.{View, view, same_side, with_ids, with_id, without_id, view-put_ids}

module _ (level_db : LevelDb) (schema : Schema) where
  -- What a read of a node's edges finds.
  abbrev fetched : Side → Text → Graph level_db → List Text
  fetched side k g = elim (lookup k (cache side g).map) [
    | none ↦ stored_ids level_db schema side k g.db
    | some ids ↦ ids
  ]

  -- The graph after the batch.
  abbrev pub after : level_db.Batch → Graph level_db → View schema
  after b g = view level_db schema (level_db.write b g.db)

  -- Room for `n` uses of each cache, and reads that see the writes of the batch.
  pub record IsReady (n : ℕ) (b : level_db.Batch) (g : Graph level_db) : Type 0 where
    pub room : (side : Side) → HasRoom n (cache side g)
    pub tracks : (side : Side) (k : Text) → fetched side k g ≡ (after b g).ids side k

  pub IsReady-weaken :
      (n : ℕ) (b : level_db.Batch) (g : Graph level_db) → IsReady (suc n) b g → IsReady n b g
  IsReady-weaken n b g r = record {
    room = λ side. HasRoom-weaken n (cache side g) (r.room side);
    tracks = r.tracks;
  }

  db-with_cache : (side : Side) (c : Cache) (g : Graph level_db) → (with_cache side c g).db ≡ g.db
  db-with_cache Side.outgoing c g = refl
  db-with_cache Side.incoming c g = refl

  room-with_cache :
      (n : ℕ) (side s : Side) (c : Cache) (g : Graph level_db)
      → HasRoom n c
      → ((s : Side) → HasRoom n (cache s g))
      → HasRoom n (cache s (with_cache side c g))
  room-with_cache n Side.outgoing Side.outgoing c g r others = r
  room-with_cache n Side.outgoing Side.incoming c g r others = others Side.incoming
  room-with_cache n Side.incoming Side.outgoing c g r others = others Side.outgoing
  room-with_cache n Side.incoming Side.incoming c g r others = r

  -- A read that misses the cache does not fill it.
  fetched-with_cache :
      (side s : Side) (k : Text) (c : Cache) (g : Graph level_db)
      → c.map ≡ (cache side g).map
      → fetched s k (with_cache side c g) ≡ fetched s k g
  fetched-with_cache Side.outgoing Side.outgoing k c g q = rw q refl
  fetched-with_cache Side.outgoing Side.incoming k c g q = refl
  fetched-with_cache Side.incoming Side.outgoing k c g q = refl
  fetched-with_cache Side.incoming Side.incoming k c g q = rw q refl

  pub get_ids-IsReady :
      (n : ℕ) (side : Side) (k : Text) (b : level_db.Batch) (g : Graph level_db)
      → IsReady (suc n) b g
      → (g' : Graph level_db) × (get_ids level_db schema side k g
          ≡ some ((after b g).ids side k, g'))
        × (g'.db ≡ g.db)
        × IsReady n b g'
  unfolding get_ids
  get_ids-IsReady n side k b g r =
      let (c, found, same, room) = find-HasRoom n k (cache side g) (r.room side) in
      (
        with_cache side c g,
        ground (arith, found, r.tracks side k, db-with_cache side c g),
        db-with_cache side c g,
        record {
          room =
              λ s. room-with_cache n side s c g room (λ t. HasRoom-weaken n (cache t g) (r.room t));
          tracks = λ s j.
              fetched-with_cache side s j c g same
              ∙ r.tracks s j
              ∙ ap (λ d. (view level_db schema (level_db.write b d)).ids s j)
                  (sym (db-with_cache side c g));
        },
      )

  fetched-stored :
      (side s : Side) (k j : Text) (ids : List Text) (c : Cache) (g : Graph level_db)
      → ((i : Text)
          → lookup i c.map ≡ (if text_eq k i then some ids else lookup i (cache side g).map))
      → fetched s j (with_cache side c g)
        ≡ (if same_side side s && text_eq k j then ids else fetched s j g)
  fetched-stored Side.outgoing Side.outgoing k j ids c g q = ground (arith, q j)
  fetched-stored Side.outgoing Side.incoming k j ids c g q = refl
  fetched-stored Side.incoming Side.outgoing k j ids c g q = refl
  fetched-stored Side.incoming Side.incoming k j ids c g q = ground (arith, q j)

  after-put_ids :
      (side : Side) (k : Text) (ids : List Text) (c : Cache) (b : level_db.Batch)
      (g : Graph level_db)
      → after
          (level_db.batch_put (add_suffix k (suffix_of side)) (schema.encode_ids ids) b)
          (with_cache side c g)
        ≡ with_ids side k ids (after b g)
  after-put_ids side k ids c b g =
      ap
        (λ d. view level_db schema (
          level_db.write
            (level_db.batch_put (add_suffix k (suffix_of side)) (schema.encode_ids ids) b) d))
        (db-with_cache side c g)
      ∙ ap (λ d. view level_db schema d)
          (level_db.write-batch_put (add_suffix k (suffix_of side)) (schema.encode_ids ids) b g.db)
      ∙ view-put_ids level_db schema side k ids (level_db.write b g.db)

  pub set_ids-IsReady :
      (n : ℕ) (side : Side) (k : Text) (ids : List Text) (b : level_db.Batch) (g : Graph level_db)
      → IsReady (suc n) b g
      → (b' : level_db.Batch) × (g' : Graph level_db) × (set_ids level_db schema side k ids b g
          ≡ some (b', g'))
        × (g'.db ≡ g.db)
        × (after b' g' ≡ with_ids side k ids (after b g))
        × IsReady n b' g'
  unfolding set_ids
  set_ids-IsReady n side k ids b g r =
      let (c, done, entries, room) = store-HasRoom n [] k ids (cache side g) (r.room side) in
      let b' = level_db.batch_put (add_suffix k (suffix_of side)) (schema.encode_ids ids) b in
      (
        b',
        with_cache side c g,
        ground (arith, done),
        db-with_cache side c g,
        after-put_ids side k ids c b g,
        record {
          room =
              λ s. room-with_cache n side s c g room (λ t. HasRoom-weaken n (cache t g) (r.room t));
          tracks = λ s j.
              fetched-stored side s k j ids c g entries
              ∙ ap (λ l. if same_side side s && text_eq k j then ids else l) (r.tracks s j)
              ∙ ap (λ v. v.ids s j) (sym (after-put_ids side k ids c b g));
        },
      )

  -- A change of one set of ids.
  change_ids :
      (n : ℕ) (f : List Text → List Text) (side : Side) (k : Text) (b : level_db.Batch)
      (g : Graph level_db)
      → IsReady (suc (suc n)) b g
      → (b' : level_db.Batch) × (g' : Graph level_db) × ((get_ids level_db schema side k g
            >>= λ got. set_ids level_db schema side k (f got.0) b got.1)
          ≡ some (b', g'))
        × (g'.db ≡ g.db)
        × (after b' g' ≡ with_ids side k (f ((after b g).ids side k)) (after b g))
        × IsReady n b' g'
  change_ids n f side k b g r =
      let (g₁, got, db₁, r₁) = get_ids-IsReady (suc n) side k b g r in
      let ids = f ((after b g).ids side k) in
      let (b', g', put, db₂, view₂, r₂) = set_ids-IsReady n side k ids b g₁ r₁ in
      (
        b',
        g',
        ap (λ o. o >>= λ got. set_ids level_db schema side k (f got.0) b got.1) got ∙ put,
        db₂ ∙ db₁,
        view₂ ∙ ap (λ d. with_ids side k ids (view level_db schema (level_db.write b d))) db₁,
        r₂,
      )

  pub enter_id-IsReady :
      (n : ℕ) (side : Side) (node id : Text) (b : level_db.Batch) (g : Graph level_db)
      → IsReady (suc (suc n)) b g
      → (b' : level_db.Batch) × (g' : Graph level_db) × (enter_id level_db schema side node id b g
          ≡ some (b', g'))
        × (g'.db ≡ g.db)
        × (after b' g' ≡ with_id side node id (after b g))
        × IsReady n b' g'
  unfolding enter_id
  enter_id-IsReady n side node id b g r = change_ids n (IdSet.insert id) side node b g r

  pub leave_id-IsReady :
      (n : ℕ) (side : Side) (node id : Text) (b : level_db.Batch) (g : Graph level_db)
      → IsReady (suc (suc n)) b g
      → (b' : level_db.Batch) × (g' : Graph level_db) × (leave_id level_db schema side node id b g
          ≡ some (b', g'))
        × (g'.db ≡ g.db)
        × (after b' g' ≡ without_id side node id (after b g))
        × IsReady n b' g'
  unfolding leave_id
  leave_id-IsReady n side node id b g r = change_ids n (IdSet.erase id) side node b g r

  -- Another batch that leaves the same ids.
  pub IsReady-batch :
      (n : ℕ) (b b' : level_db.Batch) (g : Graph level_db)
      → IsReady n b g
      → ((s : Side) (j : Text) → (after b g).ids s j ≡ (after b' g).ids s j)
      → IsReady n b' g
  IsReady-batch n b b' g r same = record { room = r.room; tracks = λ s j. r.tracks s j ∙ same s j }

  fetched-db :
      (s : Side) (k : Text) (g : Graph level_db) (d : level_db.Db)
      → fetched s k g ≡ stored_ids level_db schema s k d
      → fetched s k (record g { db = d }) ≡ stored_ids level_db schema s k d
  fetched-db Side.outgoing k g d q = ground (arith, q)
  fetched-db Side.incoming k g d q = ground (arith, q)

  -- The batch written.
  pub IsReady-write :
      (n : ℕ) (b : level_db.Batch) (g : Graph level_db)
      → IsReady n b g
      → IsReady n level_db.no_batch (record g { db = level_db.write b g.db })
  IsReady-write n b g r = record {
    room = elim [ Side.outgoing ↦ r.room Side.outgoing | Side.incoming ↦ r.room Side.incoming ];
    tracks = λ s j.
        fetched-db s j g (level_db.write b g.db) (r.tracks s j)
        ∙ ap (λ d. (view level_db schema d).ids s j)
            (sym (level_db.write-no_batch (level_db.write b g.db)));
  }

  -- A graph just opened.
  pub open_graph-IsReady :
      (n : ℕ) (d : level_db.Db)
      → n ≤ edge_cache_size
      → IsReady n level_db.no_batch (open_graph level_db d)
  unfolding lookup
  open_graph-IsReady n d fits = record {
    room = elim [
      | Side.outgoing ↦ empty-HasRoom n edge_cache_size fits (omega arith)
      | Side.incoming ↦ empty-HasRoom n edge_cache_size fits (omega arith)
    ];
    tracks = elim [
      | Side.outgoing ↦ λ k.
          ap (λ u. stored_ids level_db schema Side.outgoing k u) (sym (level_db.write-no_batch d))
      | Side.incoming ↦ λ k.
          ap (λ u. stored_ids level_db schema Side.incoming k u) (sym (level_db.write-no_batch d))
    ];
  }
