-- ===== src/Dsl/Stream.antt =====
-- `std::istringstream` as src/graphdsl.cpp uses it: `get`, `unget`, `peek`, `eof`. The end of the
-- input sets both the end flag and the failure flag in `get`, and the end flag alone in `peek`;
-- `unget` clears the end flag first, and puts nothing back in a stream that has failed.
use network_algo.Prelude.{ℕ, suc, Text, Bool, true, false, ◌||◌, [], ◌∷◌, if◌then◌else◌, length}

pub record Stream : Type 0 where
  -- what was read, last character first
  pub before : Text
  pub rest : Text
  pub eof : Bool
  pub failed : Bool

abbrev pub open_stream : Text → Stream
open_stream text = record { before = []; rest = text; eof = false; failed = false }

-- A stream that is neither at its end nor failed.
abbrev pub live : Text → Text → Stream
live before rest = record { before = before; rest = rest; eof = false; failed = false }

-- `chareof`: the end-of-file value, narrowed to `char`
abbrev pub chareof : ℕ
chareof = 255

get_from : Stream → Text → ℕ × Stream
get_from s [] = (chareof, record s { eof = true; failed = true })
get_from s (c ∷ cs) = (c, record s { before = c ∷ s.before; rest = cs })

unfoldable pub get : Stream → ℕ × Stream
unfolding get_from
get s = if s.eof || s.failed then (chareof, record s { failed = true }) else get_from s s.rest

put_back : Stream → Text → Stream
put_back s [] = record s { failed = true }
put_back s (c ∷ b) = record s { before = b; rest = c ∷ s.rest }

unfoldable pub unget : Stream → Stream
unfolding put_back
unget s = let s' = record s { eof = false } in if s.failed then s' else put_back s' s.before

peek_from : Stream → Text → ℕ × Stream
peek_from s [] = (chareof, record s { eof = true })
peek_from s (c ∷ cs) = (c, s)

unfoldable pub peek : Stream → ℕ × Stream
unfolding peek_from
peek s = if s.eof || s.failed then (chareof, record s { failed = true }) else peek_from s s.rest

-- A bound on the rounds of a loop that reads a character in each.
abbrev pub rounds : Stream → ℕ
rounds s = suc (suc (length s.rest))
