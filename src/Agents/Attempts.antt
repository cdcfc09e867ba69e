-- ===== src/Agents/Attempts.antt =====
-- Which endpoints a call has tried when it gives up.
use ai_jin_shu.Common.{
  ℕ, zero, suc, ◌+◌, ◌≤◌, ◌≡◌, refl, ◌∙◌, ap, sym, Bool, true, false, ◌||◌, Option, none, some,
  String, List, [], ◌∷◌, ◌++◌, length, arith, is_some, if◌then◌else◌,
}
use ai_jin_shu.Common.Table.{length-append_one}
use ai_jin_shu.Breaker.{
  EndpointName, primary, fallback_a, fallback_b, StageState, excludes, same, set_default,
  select_endpoint, record_call,
}
use ai_jin_shu.Breaker.Selection.{select_on-excluded}
use ai_jin_shu.Agents.{Attempt, AgentRun, answer_of, round_end, rounds, run_llm_agent}

abbrev pub AllTried : List EndpointName → Type 0
AllTried xs =
    (excludes xs primary ≡ true) × (excludes xs fallback_a ≡ true) × (excludes xs fallback_b ≡ true)

abbrev one : Bool → ℕ
one b = if b then 1 else 0

-- The number of endpoints in a list.
abbrev size : List EndpointName → ℕ
size xs = one (excludes xs primary) + (one (excludes xs fallback_a) + one (excludes xs fallback_b))

excludes-append_one :
    (f e : EndpointName) (xs : List EndpointName)
    → excludes (xs ++ e ∷ []) f ≡ (excludes xs f || same f e)
excludes-append_one f e [] = ground arith
excludes-append_one f e (x ∷ xs) = ground (arith, excludes-append_one f e xs)

more_first :
    (a b c : Bool)
    → a ≡ false
    → one (a || true) + (one (b || false) + one (c || false)) ≡ suc (one a + (one b + one c))
more_first a b c h = ground arith

more_second :
    (a b c : Bool)
    → b ≡ false
    → one (a || false) + (one (b || true) + one (c || false)) ≡ suc (one a + (one b + one c))
more_second a b c h = ground arith

more_third :
    (a b c : Bool)
    → c ≡ false
    → one (a || false) + (one (b || false) + one (c || true)) ≡ suc (one a + (one b + one c))
more_third a b c h = ground arith

one_more :
    (e : EndpointName) (a b c : Bool) (xs : List EndpointName)
    → excludes xs primary ≡ a
    → excludes xs fallback_a ≡ b
    → excludes xs fallback_b ≡ c
    → excludes xs e ≡ false
    → one (a || same primary e) + (one (b || same fallback_a e) + one (c || same fallback_b e))
      ≡ suc (one a + (one b + one c))
one_more primary a b c xs p q r h = more_first a b c (sym p ∙ h)
one_more fallback_a a b c xs p q r h = more_second a b c (sym q ∙ h)
one_more fallback_b a b c xs p q r h = more_third a b c (sym r ∙ h)

size-append_one :
    (e : EndpointName) (xs : List EndpointName)
    → excludes xs e ≡ false
    → size (xs ++ e ∷ []) ≡ suc (size xs)
size-append_one e xs h = rw (excludes-append_one primary e xs) (
    rw (excludes-append_one fallback_a e xs) (
      rw (excludes-append_one fallback_b e xs) (
        one_more e (excludes xs primary) (excludes xs fallback_a) (excludes xs fallback_b) xs refl
          refl refl h)))

select_endpoint-excluded :
    (now : ℕ) (s : String) (xs : List EndpointName) (states : List StageState)
    → excludes xs (select_endpoint now s xs states).0.0 ≡ true
    → AllTried xs
unfolding select_endpoint
select_endpoint-excluded now s xs states h = select_on-excluded now xs (set_default s states).0 h

size_full : (xs : List EndpointName) → 3 ≤ size xs → AllTried xs
size_full xs h = full (excludes xs primary) (excludes xs fallback_a) (excludes xs fallback_b) h
  where
    full : (a b c : Bool) → 3 ≤ one a + (one b + one c) → (a ≡ true) × (b ≡ true) × (c ≡ true)
    full a b c h = ground arith

full_size : (xs : List EndpointName) → AllTried xs → size xs ≡ 3
full_size xs (p, q, r) = rw p (rw q (rw r refl))

-- Every endpoint is in the list, once.
abbrev pub EachOnce : List EndpointName → Type 0
EachOnce xs = AllTried xs × (length xs ≡ 3)

module _ {ℓ} {A : Type ℓ} where
  round_end-EachOnce :
      (taken : Bool) (given : Option A) (tried tried' : List EndpointName)
      (selected recorded : List StageState) (next : AgentRun A)
      → (taken ≡ true → EachOnce tried)
      → (taken ≡ false → next.result ≡ none → EachOnce next.tried_endpoints)
      → (round_end taken given tried tried' selected recorded next).result ≡ none
      → EachOnce (round_end taken given tried tried' selected recorded next).tried_endpoints
  round_end-EachOnce true given tried tried' selected recorded next h g r = h refl
  round_end-EachOnce false none tried tried' selected recorded next h g r = g refl r
  round_end-EachOnce false (some a) tried tried' selected recorded next h g r =
      absurd (ground (arith, r))

  rounds-EachOnce :
      (n : ℕ) (clock : ℕ → ℕ) (attempts : ℕ → Attempt A) (s : String) (tried : List EndpointName)
      (states : List StageState)
      → 3 ≤ size tried + n
      → length tried ≡ size tried
      → (rounds n clock attempts s tried states).result ≡ none
      → EachOnce (rounds n clock attempts s tried states).tried_endpoints
  unfolding rounds
  rounds-EachOnce zero clock attempts s tried states h l r =
      let all = size_full tried (omega (arith, h)) in (all, l ∙ full_size tried all)
  rounds-EachOnce (suc n) clock attempts s tried states h l r =
      let e = (select_endpoint (clock n) s tried states).0.0 in
      let selected = (select_endpoint (clock n) s tried states).1 in
      let given = answer_of (attempts n) in
      let recorded = (record_call (clock n) s e (is_some given) selected).1 in
      round_end-EachOnce (excludes tried e) given tried (tried ++ e ∷ []) selected recorded
        (rounds n clock attempts s (tried ++ e ∷ []) recorded)
        (λ taken.
          let all = select_endpoint-excluded (clock n) s tried states taken in
          (all, l ∙ full_size tried all))
        (λ free.
          rounds-EachOnce n clock attempts s (tried ++ e ∷ []) recorded
            (omega (arith, h, size-append_one e tried free))
            (length-append_one e tried ∙ ap suc l ∙ sym (size-append_one e tried free)))
        r

  -- A call whose prompt renders gives up only after a round under the name of each of the three
  -- endpoints, and none of the names twice, whatever the breakers' state and the times. The name is
  -- what the rounds select and record; the model itself is called without it.
  pub run_llm_agent-EachOnce :
      (clock : ℕ → ℕ) (attempts : ℕ → Attempt A) (s : String) (states : List StageState)
      → (run_llm_agent true clock attempts s states).result ≡ none
      → EachOnce (run_llm_agent true clock attempts s states).tried_endpoints
  unfolding run_llm_agent
  run_llm_agent-EachOnce clock attempts s states r =
      rounds-EachOnce 3 clock attempts s [] states (omega arith) refl r
