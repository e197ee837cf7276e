-- ===== src/Dsl/Manager.antt =====
-- `GraphSqlManager` and `operator""_graphsql` of src/graphdsl.cpp: the parsed sentences, by the address
-- of their text. A memory gives the C string at each address.
mod Tests
use network_algo.Prelude.{
  ℕ, ◌≡◌, refl, sym, ap, ◌∙◌, subst, Bool, true, false, Option, none, some, List, Text, ◌==◌,
  length, if◌then◌else◌, arith, ◌⊎◌, inl, inr, Option-cases, ==_iff, ℕ_eq, Bool-cases,
}
use network_algo.Containers.Assoc.{lookup, insert, lookup-insert}
use network_algo.Dsl.Syntax.{GraphSqlSentence}
use network_algo.Dsl.Outcome.{Outcome, ok, throw, undefined, out_of_fuel, bind}
use network_algo.Dsl.Sentence.{forget, parse_graph_sql_impl}

abbrev pub Memory : Type 0
Memory = ℕ → Text

abbrev pub SentenceCache : Type 0
SentenceCache = List (ℕ × GraphSqlSentence)

-- `cache.insert` of what the parser returns, and `cache[p]`
unfoldable pub remember :
    ℕ → SentenceCache → Outcome (Unit {0}) GraphSqlSentence → Outcome SentenceCache GraphSqlSentence
remember p cache (ok sentence u) =
    let cache' = insert p sentence cache in
    elim (lookup p cache') [ none ↦ undefined | some found ↦ ok found cache' ]
remember p cache (throw e u) = throw e cache
remember p cache undefined = undefined
remember p cache out_of_fuel = out_of_fuel

-- `getParsedSentence`
unfoldable pub get_parsed_sentence :
    Memory → ℕ → SentenceCache → Outcome SentenceCache GraphSqlSentence
unfolding remember
get_parsed_sentence memory p cache = elim (lookup p cache) [
  | none ↦ remember p cache (parse_graph_sql_impl (memory p))
  | some sentence ↦ ok sentence cache
]

-- `operator""_graphsql`; `none` is its assertion.
unfoldable pub graphsql_literal :
    Memory → ℕ → ℕ → SentenceCache → Option (Outcome SentenceCache GraphSqlSentence)
unfolding get_parsed_sentence
graphsql_literal memory p size cache =
    if size == length (memory p) then some (get_parsed_sentence memory p cache) else none

-- Every sentence in the cache is the one of the text at its address.
abbrev pub IsCurrent : Memory → SentenceCache → Type 0
IsCurrent memory cache =
    (p : ℕ) (sentence : GraphSqlSentence)
    → lookup p cache ≡ some sentence
    → parse_graph_sql_impl (memory p) ≡ ok sentence tt

remember-forget :
    (p : ℕ) (cache : SentenceCache) (o : Outcome (Unit {0}) GraphSqlSentence)
    → lookup p cache ≡ none
    → forget (remember p cache o) ≡ o
unfolding remember forget
remember-forget p cache (ok sentence u) h = ground (arith, lookup-insert p p sentence cache, h)
remember-forget p cache (throw e u) h = refl
remember-forget p cache undefined h = refl
remember-forget p cache out_of_fuel h = refl

remember-IsCurrent :
    (memory : Memory) (p : ℕ) (cache cache' : SentenceCache) (sentence : GraphSqlSentence)
    (o : Outcome (Unit {0}) GraphSqlSentence)
    → lookup p cache ≡ none
    → parse_graph_sql_impl (memory p) ≡ o
    → IsCurrent memory cache
    → remember p cache o ≡ ok sentence cache'
    → IsCurrent memory cache'
unfolding remember
remember-IsCurrent memory p cache cache' sentence (ok s u) h k v e =
    let grown : cache' ≡ insert p s cache = ground (arith, lookup-insert p p s cache, h, e) in
    subst (IsCurrent memory) (sym grown) λ q w f. elim (Bool-cases (p == q)) [
      | inl same ↦
          let at : q ≡ p = ground (arith, same) in
          let value : w ≡ s = ground (arith, lookup-insert p q s cache, f, same, h) in
          ap (λ r. parse_graph_sql_impl (memory r)) at ∙ k ∙ ap (λ x. ok x tt) (sym value)
      | inr other ↦ v q w (ground (arith, lookup-insert p q s cache, f, other))
    ]
remember-IsCurrent memory p cache cache' sentence (throw x u) h k v e = cc
remember-IsCurrent memory p cache cache' sentence undefined h k v e = cc
remember-IsCurrent memory p cache cache' sentence out_of_fuel h k v e = cc

remember-found :
    (p : ℕ) (cache cache' : SentenceCache) (sentence : GraphSqlSentence)
    (o : Outcome (Unit {0}) GraphSqlSentence)
    → remember p cache o ≡ ok sentence cache'
    → lookup p cache' ≡ some sentence
unfolding remember
remember-found p cache cache' sentence (ok s u) e =
    elim (Option-cases (lookup p (insert p s cache))) [
      | inl missing ↦ ground (arith, missing, e)
      | inr (found, hit) ↦ ground (arith, hit, e)
    ]
remember-found p cache cache' sentence (throw x u) e = cc
remember-found p cache cache' sentence undefined e = cc
remember-found p cache cache' sentence out_of_fuel e = cc

get_parsed_sentence-miss :
    (memory : Memory) (p : ℕ) (cache : SentenceCache)
    → lookup p cache ≡ none
    → get_parsed_sentence memory p cache ≡ remember p cache (parse_graph_sql_impl (memory p))
unfolding get_parsed_sentence
get_parsed_sentence-miss memory p cache h = ground (arith, h)

get_parsed_sentence-hit :
    (memory : Memory) (p : ℕ) (cache : SentenceCache) (found : GraphSqlSentence)
    → lookup p cache ≡ some found
    → get_parsed_sentence memory p cache ≡ ok found cache
unfolding get_parsed_sentence
get_parsed_sentence-hit memory p cache found h = ground (arith, h)

forget-ok : {S A : Type 0} (o : Outcome S A) (a : A) (s : S) → o ≡ ok a s → forget o ≡ ok a tt
unfolding forget
forget-ok o a s h = ap forget h

-- As long as every sentence in the cache is the one of the text that stands at its address,
-- `getParsedSentence` has the outcome of parsing the text at the address, exceptions included, and
-- leaves a cache of which the same is true.
pub get_parsed_sentence-parse :
    (memory : Memory) (p : ℕ) (cache : SentenceCache)
    → IsCurrent memory cache
    → (forget (get_parsed_sentence memory p cache) ≡ parse_graph_sql_impl (memory p))
      × ((sentence : GraphSqlSentence) (cache' : SentenceCache)
          → get_parsed_sentence memory p cache ≡ ok sentence cache'
          → IsCurrent memory cache')
get_parsed_sentence-parse memory p cache v = elim (Option-cases (lookup p cache)) [
  | inl missing ↦
      let parse = parse_graph_sql_impl (memory p) in
      let miss = get_parsed_sentence-miss memory p cache missing in
      (
        ap forget miss ∙ remember-forget p cache parse missing,
        λ sentence cache' e.
            remember-IsCurrent memory p cache cache' sentence parse missing refl v (sym miss ∙ e),
      )
  | inr (found, hit) ↦
      let known = get_parsed_sentence-hit memory p cache found hit in
      (
        forget-ok (get_parsed_sentence memory p cache) found cache known ∙ sym (v p found hit),
        λ sentence cache' e.
            let both : ok found cache ≡ ok sentence cache' = sym known ∙ e in
            let same : cache ≡ cache' = cc in subst (IsCurrent memory) same v,
      )
]

-- Once a sentence has been parsed from the text at an address, `getParsedSentence` returns it for
-- that address whatever text has been written there since.
get_parsed_sentence-stale :
    (before after : Memory) (p : ℕ) (cache cache' : SentenceCache) (sentence : GraphSqlSentence)
    → get_parsed_sentence before p cache ≡ ok sentence cache'
    → get_parsed_sentence after p cache' ≡ ok sentence cache'
get_parsed_sentence-stale before after p cache cache' sentence h =
    get_parsed_sentence-hit after p cache' sentence (elim (Option-cases (lookup p cache)) [
      | inl missing ↦
          remember-found p cache cache' sentence (parse_graph_sql_impl (before p))
            (sym (get_parsed_sentence-miss before p cache missing) ∙ h)
      | inr (found, hit) ↦
          let both : ok found cache ≡ ok sentence cache' =
            sym (get_parsed_sentence-hit before p cache found hit) ∙ h in
          let same : cache ≡ cache' = cc in
          let value : found ≡ sentence = cc in ap (lookup p) (sym same) ∙ hit ∙ ap some value
    ])
