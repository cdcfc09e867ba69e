-- ===== src/Scheduler/Progress/Monotone.antt =====
-- The token usage that `update_task_progress` of app/services/scheduler/scheduler_service.py keeps
-- in a task's result.
use ai_jin_shu.Common.{
  ◌≡◌, refl, sym, ◌∙◌, true, false, Option, some, none, String, ok, >>=-eq-ok, ok-injective, subst,
  arith, str_eq,
}
use ai_jin_shu.Common.Int.{ℤ, max_ℤ, ◌+ℤ◌, ◌≤ℤ◌}
use ai_jin_shu.Json.{Json, num, real, obj, Fields, get, set_key, as_dict, Numerals}
use ai_jin_shu.Json.Merge.{get-set_key}
use ai_jin_shu.Scheduler.Progress.{
  Usage, stored_int, stored_float, raise_billable, raise_cost, raise_usage, raise_to, reports_usage,
}

-- The billable tokens `m` of the result `d` cover the reported number and the visible tokens.
pub record Covers (py : Numerals) (v : ℤ) (d : Fields) (i o m : ℤ) : Type 0 where
  pub input : stored_int py "token_usage_input" d ≡ ok i
  pub output : stored_int py "token_usage_output" d ≡ ok o
  pub billable : get "token_usage_billable" d ≡ num m
  pub reported : v ≤ℤ m
  pub visible : (i +ℤ o) ≤ℤ m

max_left : (a b : ℤ) → a ≤ℤ max_ℤ a b
max_left a b = ground arith

max_right : (a b : ℤ) → b ≤ℤ max_ℤ a b
max_right a b = ground arith

stored_int-other :
    (py : Numerals) (k j : String) (v : Json) (d : Fields) (z : ℤ)
    → str_eq k j ≡ false
    → stored_int py j d ≡ ok z
    → stored_int py j (set_key k v d) ≡ ok z
stored_int-other py k j v d z h e = rw (stored_int, get-set_key k j v d, h) e

raised-Covers :
    (py : Numerals) (v : ℤ) (d d' : Fields)
    → raise_billable py (some v) d ≡ ok d'
    → (i : ℤ) × (o : ℤ) × (m : ℤ) × Covers py v d' i o m
unfolding raise_billable
raised-Covers py v d d' h =
    let (i, hi, h₁) = >>=-eq-ok (stored_int py "token_usage_input" d) _ d' h in
    let (o, ho, h₂) = >>=-eq-ok (stored_int py "token_usage_output" d) _ d' h₁ in
    let (w, hw, h₃) = >>=-eq-ok (stored_int py "token_usage_billable" d) _ d' h₂ in
    let m = max_ℤ (max_ℤ w v) (i +ℤ o) in
    (
      i,
      o,
      m,
      subst (λ x. Covers py v x i o m)
          (ok-injective (set_key "token_usage_billable" (num m) d) d' h₃)
          (record {
            input = stored_int-other py _ "token_usage_input" _ d i refl hi;
            output = stored_int-other py _ "token_usage_output" _ d o refl ho;
            billable = get-set_key "token_usage_billable" "token_usage_billable" (num m) d;
            reported = omega (arith, max_right w v, max_left (max_ℤ w v) (i +ℤ o));
            visible = max_right (max_ℤ w v) (i +ℤ o);
          }),
    )

cost-Covers :
    (py : Numerals) (v : ℤ) (cost : Option ℤ) (d d' : Fields) (i o m : ℤ)
    → raise_cost py cost d ≡ ok d'
    → Covers py v d i o m
    → Covers py v d' i o m
unfolding raise_cost
cost-Covers py v none d d' i o m h c = subst (λ x. Covers py v x i o m) (ok-injective d d' h) c
cost-Covers py v (some z) d d' i o m h c =
    let (w, hw, h₁) = >>=-eq-ok (stored_float py "estimated_cost" d) _ d' h in
    subst (λ x. Covers py v x i o m)
      (ok-injective (set_key "estimated_cost" (real (max_ℤ w z)) d) d' h₁)
      (record {
        input = stored_int-other py _ "token_usage_input" _ d i refl c.input;
        output = stored_int-other py _ "token_usage_output" _ d o refl c.output;
        billable =
            get-set_key "estimated_cost" "token_usage_billable" (real (max_ℤ w z)) d ∙ c.billable;
        reported = c.reported;
        visible = c.visible;
      })

reports-billable : (a : Usage) (v : ℤ) → a.token_usage_billable ≡ some v → reports_usage a ≡ true
reports-billable a v b = ground arith

-- A progress report with billable tokens that is stored leaves readable input and output tokens, and
-- billable tokens that are no fewer than the reported ones and than input and output together.
pub raise_usage-Covers :
    (py : Numerals) (a : Usage) (v : ℤ) (result : Json) (r : Json)
    → a.token_usage_billable ≡ some v
    → raise_usage py a result ≡ ok r
    → (d : Fields) × (i : ℤ) × (o : ℤ) × (m : ℤ) × (r ≡ obj d) × Covers py v d i o m
unfolding raise_usage
raise_usage-Covers py a v result r b h =
    let h' = rw (reports-billable a v b) at h in
    let (d₁, _, h₁) =
      >>=-eq-ok (raise_to py "token_usage_input" a.token_usage_input (as_dict result)) _ r h' in
    let (d₂, _, h₂) = >>=-eq-ok (raise_to py "token_usage_output" a.token_usage_output d₁) _ r h₁ in
    let (d₃, m₃, h₃) = >>=-eq-ok (raise_billable py a.token_usage_billable d₂) _ r h₂ in
    let (d₄, m₄, h₄) = >>=-eq-ok (raise_cost py a.estimated_cost d₃) _ r h₃ in
    let (i, o, m, c) =
      raised-Covers py v d₂ d₃ (subst (λ x. raise_billable py x d₂ ≡ ok d₃) b m₃) in
    (
      d₄,
      i,
      o,
      m,
      sym (ok-injective (obj d₄) r h₄),
      cost-Covers py v a.estimated_cost d₃ d₄ i o m m₄ c,
    )
