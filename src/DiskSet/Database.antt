-- ===== src/DiskSet/Database.antt =====
-- What include/diskset.hpp uses of LevelDB and cereal, as parameters.
use network_algo.Prelude.{◌≡◌, Text, Bool, true, false, not, List, [], ◌∷◌, if◌then◌else◌}

-- The type of the elements with its operators and its serialisation.
pub record Element : Type 1 where
  pub T : Type 0
  pub less : T → T → Bool
  pub equal : T → T → Bool
  pub serialize : T → Text
  pub deserialize : Text → T
  pub deserialize-serialize : (x : T) → deserialize (serialize x) ≡ x

-- -1, 0 and 1
pub data Sign : Type 0 where
  below same above : Sign

-- The keys with one more in its place; a key that compares equal is replaced.
abbrev pub place : (Text → Text → Sign) → Text → List Text → List Text
place compare k [] = k ∷ []
place compare k (j ∷ ks) = elim (compare j k) [
  | below ↦ j ∷ place compare k ks
  | same ↦ k ∷ ks
  | above ↦ k ∷ j ∷ ks
]

-- The keys from the first that is not below a target.
abbrev pub from_target : (Text → Text → Sign) → Text → List Text → List Text
from_target compare k [] = []
from_target compare k (j ∷ ks) = elim (compare j k) [
  | below ↦ from_target compare k ks
  | same ↦ j ∷ ks
  | above ↦ j ∷ ks
]

abbrev pub last_alone : List Text → List Text
last_alone [] = []
last_alone (k ∷ []) = k ∷ []
last_alone (k ∷ j ∷ ks) = last_alone (j ∷ ks)

abbrev pub tail : List Text → List Text
tail [] = []
tail (k ∷ ks) = ks

abbrev pub is_empty : List Text → Bool
is_empty [] = true
is_empty (k ∷ ks) = false

-- An open database, whose iterators see the keys as they were when the iterator was made. Of a cursor
-- the laws speak by the keys that it has still ahead, its own included; `next` asks for a valid cursor.
pub record OrderedDb (compare : Text → Text → Sign) : Type 1 where
  pub Db : Type 0
  pub Cursor : Type 0
  pub put : Text → Db → Bool × Db
  pub delete : Text → Db → Db
  pub seek_to_first : Db → Cursor
  pub seek_to_last : Db → Cursor
  pub seek : Text → Db → Cursor
  pub next : Cursor → Cursor
  pub valid : Cursor → Bool
  pub key : Cursor → Text
  pub keys : Db → List Text
  pub ahead : Cursor → List Text
  pub keys-put :
      (k : Text) (db : Db)
      → keys (put k db).1 ≡ (if (put k db).0 then place compare k (keys db) else keys db)
  pub ahead-seek_to_first : (db : Db) → ahead (seek_to_first db) ≡ keys db
  pub ahead-seek_to_last : (db : Db) → ahead (seek_to_last db) ≡ last_alone (keys db)
  pub ahead-seek : (k : Text) (db : Db) → ahead (seek k db) ≡ from_target compare k (keys db)
  pub ahead-next : (it : Cursor) → valid it ≡ true → ahead (next it) ≡ tail (ahead it)
  pub valid-ahead : (it : Cursor) → valid it ≡ not (is_empty (ahead it))
  pub key-ahead : (it : Cursor) (k : Text) (ks : List Text) → ahead it ≡ k ∷ ks → key it ≡ k
