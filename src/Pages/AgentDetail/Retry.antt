-- ===== src/Pages/AgentDetail/Retry.antt =====
-- The retry policy between the form and the server.
use cron_agent_dashboard.Prelude.{
  ◌≡◌, refl, sym, ap, ◌∙◌, Bool, true, false, not, Option, some, List, [], ◌∷◌, ◌++◌, map, arith,
  Text, text_eq, trim, trim_start, trim_end, is_empty, coalesce, filter, any, all, if◌then◌else◌,
  ◌==◌, All,
}
use cron_agent_dashboard.Pages.AgentDetail.{
  Numbers, RetryFields, RetryPolicy, join_comma, split_comma, retry_policy_from_json, retry_policy,
  retry_policy_json, timeout, executor_error, present,
}

abbrev pub HasNoComma : Text → Type 0
HasNoComma s = all (λ c. not (c == 0x2c)) s ≡ true

split_one : (s : Text) → HasNoComma s → split_comma s ≡ s ∷ []
unfolding split_comma
split_one [] h = refl
split_one (c ∷ s) h = ground (arith, split_one s, h)

split_more : (s t : Text) → HasNoComma s → split_comma (s ++ 0x2c ∷ t) ≡ s ∷ split_comma t
unfolding split_comma
split_more [] t h = refl
split_more (c ∷ s) t h = ground (arith, split_more s t, h)

split_comma-join_comma :
    (x : Text) (xs : List Text)
    → HasNoComma x
    → All HasNoComma xs
    → split_comma (join_comma (x ∷ xs)) ≡ x ∷ xs
unfolding join_comma
split_comma-join_comma x [] h k = split_one x h
split_comma-join_comma x (y ∷ ys) h k =
    split_more x (join_comma (y ∷ ys)) h ∙ ap (◌∷◌ x) (split_comma-join_comma y ys k.0 k.1)

-- What the numbers of JavaScript do: the text of a positive number has no comma and is read back, space
-- around it aside, and the empty text is no positive number.
pub record Reads (h : Numbers) : Type 0 where
  pub number-string : (n : h.Num) → h.is_positive n ≡ true → h.number (trim (h.string n)) ≡ n
  pub string-HasNoComma : (n : h.Num) → h.is_positive n ≡ true → HasNoComma (h.string n)
  pub nothing : h.is_positive (h.number []) ≡ false

module _ (h : Numbers) (r : Reads h) where
  abbrev IsPositive : h.Num → Type 0
  IsPositive n = h.is_positive n ≡ true

  no_comma : (ns : List h.Num) → All IsPositive ns → All HasNoComma (map h.string ns)
  no_comma [] k = tt
  no_comma (n ∷ ns) k = (r.string-HasNoComma n k.0, no_comma ns k.1)

  reads_back :
      (ns : List h.Num)
      → All IsPositive ns
      → filter h.is_positive (map (λ v. h.number (trim v)) (map h.string ns)) ≡ ns
  reads_back [] k = refl
  reads_back (n ∷ ns) k = ground (arith, r.number-string n k.0, k.0, reads_back ns k.1)

  read_backoff :
      (ns : List h.Num)
      → All IsPositive ns
      → filter h.is_positive
          (map (λ v. h.number (trim v)) (split_comma (join_comma (map h.string ns))))
        ≡ ns
  unfolding split_comma join_comma trim trim_start trim_end
  read_backoff [] k = ground (arith, r.nothing)
  read_backoff (n ∷ ns) k =
      let c = no_comma (n ∷ ns) k in
      rw (split_comma-join_comma (h.string n) (map h.string ns) c.0 c.1) (reads_back (n ∷ ns) k)

coalesce-present {ℓ} : {A : Type ℓ} (xs : List A) → coalesce (present xs) [] ≡ xs
coalesce-present [] = refl
coalesce-present (x ∷ xs) = refl

-- The kinds of two boxes
abbrev kinds_of : Bool → Bool → List Text
kinds_of a b = (if a then timeout ∷ [] else []) ++ (if b then executor_error ∷ [] else [])

has_timeout : (a b : Bool) → any (λ k. text_eq k timeout) (kinds_of a b) ≡ a
unfolding text_eq
has_timeout true true = refl
has_timeout true false = refl
has_timeout false true = refl
has_timeout false false = refl

has_executor_error : (a b : Bool) → any (λ k. text_eq k executor_error) (kinds_of a b) ≡ b
unfolding text_eq
has_executor_error true true = refl
has_executor_error true false = refl
has_executor_error false true = refl
has_executor_error false false = refl

-- The fields of a policy that has all of its own
abbrev fields_of : (h : Numbers) → RetryPolicy h → RetryFields
fields_of h p =
    let retry_on = coalesce p.retry_on (timeout ∷ executor_error ∷ []) in
    record {
      max_attempts = h.string (coalesce p.max_attempts h.one);
      backoff_seconds = join_comma (map h.string (coalesce p.backoff_seconds []));
      retry_on_timeout = any (λ k. text_eq k timeout) retry_on;
      retry_on_executor_error = any (λ k. text_eq k executor_error) retry_on;
    }

from_text :
    (h : Numbers) (parse : Text → Option (RetryPolicy h)) (v : Text) (p : RetryPolicy h)
    → is_empty v ≡ false
    → parse v ≡ some p
    → retry_policy_from_json h parse (some v) ≡ fields_of h p
unfolding retry_policy_from_json
from_text h parse [] p e k = absurd (ground (arith, e))
from_text h parse (c ∷ v) p e k = rw k refl

-- A form whose number of attempts is written as JavaScript writes it and whose waiting times are positive
-- numbers, written likewise with commas between them, is read back as it was from the policy that it is
-- saved as, where `JSON.parse` reads back what `JSON.stringify` wrote.
pub retry_policy_from_json-retry_policy_json :
    (h : Numbers) (r : Reads h) (parse : Text → Option (RetryPolicy h))
    (stringify : RetryPolicy h → Text) (f : RetryFields) (ns : List h.Num)
    → f.backoff_seconds ≡ join_comma (map h.string ns)
    → All (λ n. h.is_positive n ≡ true) ns
    → h.string (h.or_number (h.number f.max_attempts) h.one) ≡ f.max_attempts
    → parse (stringify (retry_policy h f)) ≡ some (retry_policy h f)
    → is_empty (stringify (retry_policy h f)) ≡ false
    → retry_policy_from_json h parse (some (retry_policy_json h stringify f)) ≡ f
unfolding retry_policy_json retry_policy
retry_policy_from_json-retry_policy_json h r parse stringify f ns b k m p e =
    let seconds : filter h.is_positive
          (map (λ v. h.number (trim v)) (split_comma f.backoff_seconds))
        ≡ ns =
      rw b (read_backoff h r ns k) in
    let read : join_comma (map h.string (coalesce (retry_policy h f).backoff_seconds []))
        ≡ f.backoff_seconds =
      ap (λ xs. join_comma (map h.string xs)) (coalesce-present _ ∙ seconds) ∙ sym b in
    from_text h parse (stringify (retry_policy h f)) (retry_policy h f) e p ∙ (λ i. record {
      max_attempts = m i;
      backoff_seconds = read i;
      retry_on_timeout = has_timeout f.retry_on_timeout f.retry_on_executor_error i;
      retry_on_executor_error = has_executor_error f.retry_on_timeout f.retry_on_executor_error i;
    })
