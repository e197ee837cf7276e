-- ===== src/Graph/Samples.antt =====
-- A database that is a list, and nodes and edges that are serialised as words: instances of what
-- include/backend/leveldbgraph.hpp uses, for the tests.
use network_algo.Prelude.{
  ℕ, zero, suc, ◌≡◌, refl, ap, ◌∙◌, some, List, [], ◌∷◌, ◌++◌, Text, text_eq, Text_eq,
  if◌then◌else◌, codes, map,
}
use network_algo.Containers.Assoc.{lookup, erase, lookup-erase}
use network_algo.Graph.Storage.{LevelDb, Schema}
use network_algo.Graph.Operations.{Graph, open_graph}

pub lookup-cons :
    (k j s : Text) (d : List (Text × Text))
    → lookup j ((k, s) ∷ d) ≡ (if text_eq k j then some s else lookup j d)
unfolding lookup
lookup-cons k j s d = refl

abbrev pub list_db : LevelDb
list_db = record {
  Db = List (Text × Text);
  Batch = List (Text × Text);
  get = lookup;
  put = λ k s d. (k, s) ∷ d;
  delete = erase;
  no_batch = [];
  batch_put = λ k s b. (k, s) ∷ b;
  write = λ b d. b ++ d;
  get-put = lookup-cons;
  get-delete = lookup-erase;
  write-no_batch = λ d. refl;
  write-batch_put = λ k s b d. refl;
}

-- Words, each closed by a zero.
abbrev pub join : List Text → Text
join [] = []
join (t ∷ ts) = map suc t ++ (0 ∷ join ts)

abbrev pub cons_head : ℕ → List Text → List Text
cons_head c [] = []
cons_head c (t ∷ ts) = (c ∷ t) ∷ ts

abbrev pub split : Text → List Text
split [] = []
split (zero ∷ s) = [] ∷ split s
split (suc c ∷ s) = cons_head c (split s)

pub split-word : (t s : Text) → split (map suc t ++ (0 ∷ s)) ≡ t ∷ split s
split-word [] s = refl
split-word (c ∷ t) s = ap (cons_head c) (split-word t s)

pub split-join : (ts : List Text) → split (join ts) ≡ ts
split-join [] = refl
split-join (t ∷ ts) = split-word t (join ts) ∙ ap (λ us. t ∷ us) (split-join ts)

abbrev pub edge_of : List Text → Text × Text × Text
edge_of (a ∷ b ∷ c ∷ ts) = (a, b, c)
edge_of ts = ([], [], [])

abbrev pub word_schema : Schema
word_schema = record {
  Node = Text;
  Edge = Text × Text × Text;
  node_id = λ n. n;
  edge_id = λ e. e.0;
  from = λ e. e.1;
  to = λ e. e.2;
  encode_node = λ n. n;
  decode_node = λ s. s;
  encode_edge = λ e. join (e.0 ∷ e.1 ∷ e.2 ∷ []);
  decode_edge = λ s. edge_of (split s);
  encode_ids = join;
  decode_ids = split;
  decode-encode_node = λ n. refl;
  decode-encode_edge = λ e. ap edge_of (split-join (e.0 ∷ e.1 ∷ e.2 ∷ []));
  decode-encode_ids = split-join;
}

abbrev pub loop_edge : Text × Text × Text
loop_edge = (codes "e", codes "a", codes "b")

abbrev pub fresh : Graph list_db
fresh = open_graph list_db []

-- The keys of the database.
abbrev pub keys_of : List (Text × Text) → List Text
keys_of [] = []
keys_of ((k, v) ∷ d) = k ∷ keys_of d
