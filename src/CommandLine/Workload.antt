-- ===== src/CommandLine/Workload.antt =====
-- node_agent/cli.py: `bench_workload`.
use fleet_lm.Base.{
  ℕ, zero, suc, ◌+◌, ◌%◌, String, code, Bool, false, ◌||◌, Option, none, some, ◌≡◌, refl, ap, sym,
  ◌∙◌, List, [], ◌∷◌, ◌==◌, arith, All, length, if◌then◌else◌, nth, concat, show, read_digits,
  read_digits-show,
}
use fleet_lm.Batch.Data.{Message, Request}

abbrev pub bench_prompts : List String
bench_prompts =
    "Name three uses for a paperclip." ∷ "What is the capital of Japan?"
    ∷ "Explain gravity in one sentence." ∷ "List two prime numbers over 50."
    ∷ "Why is the sky blue?" ∷ "Give a synonym for 'rapid'." ∷ "What does an orchestrator do?"
    ∷ "Summarise photosynthesis briefly." ∷ "How many continents are there?"
    ∷ "Define latency in computing." ∷ "What is a work queue?" ∷ "Name a programming language." ∷ []

text_or : String → Option String → String
text_or default none = default
text_or default (some t) = t

-- `BENCH_PROMPTS[i % len(BENCH_PROMPTS)]`
unfoldable pub pool_prompt : ℕ → String
unfolding text_or
pool_prompt i = text_or "" (nth (i % 12) bench_prompts)

unfoldable pub bench_content : ℕ → String
bench_content i = concat (pool_prompt i) (concat " (#" (concat (show i) ")"))

unfoldable pub bench_request : ℕ → ℕ → Request
bench_request max_tokens i = record {
  messages = (let m : Message = record { role = "user"; content = bench_content i } in m ∷ []);
  model = none;
  max_tokens = max_tokens;
  temperature = 0;
}

-- The requests from the index `i` on.
unfoldable pub bench_from : ℕ → ℕ → ℕ → List Request
bench_from max_tokens i zero = []
bench_from max_tokens i (suc n) = bench_request max_tokens i ∷ bench_from max_tokens (suc i) n

unfoldable pub bench_workload : ℕ → ℕ → List Request
bench_workload n max_tokens = bench_from max_tokens 0 n

-- The number behind the first `#` of a text.
unfoldable pub index_of : String → ℕ
index_of String.[] = 0
index_of (String.◌∷◌ c s) = let rest = index_of s in if code c == 35 then read_digits s 0 else rest

has_hash : String → Bool
has_hash String.[] = false
has_hash (String.◌∷◌ c s) = code c == 35 || has_hash s

index_of-concat : (p t : String) → has_hash p ≡ false → index_of (concat p t) ≡ index_of t
unfolding index_of concat has_hash
index_of-concat String.[] t h = refl
index_of-concat (String.◌∷◌ c p) t h = ground (arith, index_of-concat p t)

prompts_hash_free : All (λ p. has_hash p ≡ false) bench_prompts
unfolding has_hash
prompts_hash_free = (
  refl,
  (refl, (refl, (refl, (refl, (refl, (refl, (refl, (refl, (refl, (refl, (refl, tt))))))))))),
)

hash_free_at :
    (o : Option String) (i : ℕ) (ps : List String)
    → All (λ p. has_hash p ≡ false) ps
    → nth i ps ≡ o
    → has_hash (text_or "" o) ≡ false
unfolding nth text_or has_hash
hash_free_at none i ps h e = refl
hash_free_at (some p) i [] h e = cc
hash_free_at (some p) zero (x ∷ xs) h e = let same : x ≡ p = cc in rw (← same) h.0
hash_free_at (some p) (suc i) (x ∷ xs) h e = hash_free_at (some p) i xs h.1 e

behind_hash : (i : ℕ) → index_of (concat " (#" (concat (show i) ")")) ≡ i
unfolding index_of concat read_digits
behind_hash i = read_digits-show i ")"

-- The index is read back from the prompt.
index_of-bench_content : (i : ℕ) → index_of (bench_content i) ≡ i
unfolding bench_content pool_prompt
index_of-bench_content i =
    index_of-concat (pool_prompt i) _
      (hash_free_at (nth (i % 12) bench_prompts) (i % 12) bench_prompts prompts_hash_free refl)
    ∙ behind_hash i

-- The content of a request's first message.
first_content : List Message → String
first_content [] = ""
first_content (m ∷ ms) = m.content

nth-bench_from :
    (max_tokens i n j : ℕ) (r : Request)
    → nth j (bench_from max_tokens i n) ≡ some r
    → r ≡ bench_request max_tokens (i + j)
unfolding bench_from nth
nth-bench_from max_tokens i zero j r h = cc
nth-bench_from max_tokens i (suc n) zero r h =
    let same : bench_request max_tokens i ≡ r = cc in
    sym same ∙ ap (bench_request max_tokens) (omega arith)
nth-bench_from max_tokens i (suc n) (suc j) r h =
    nth-bench_from max_tokens (suc i) n j r h ∙ ap (bench_request max_tokens) (omega arith)

length-bench_from : (max_tokens i n : ℕ) → length (bench_from max_tokens i n) ≡ n
unfolding bench_from
length-bench_from max_tokens i zero = refl
length-bench_from max_tokens i (suc n) = ap suc (length-bench_from max_tokens (suc i) n)

index_of_request :
    (max_tokens i : ℕ) → index_of (first_content (bench_request max_tokens i).messages) ≡ i
unfolding bench_request first_content
index_of_request max_tokens i = index_of-bench_content i

-- A benchmark of `n` requests sends `n` requests, no two of them alike, so that a fleet that answers
-- like requests from a cache gains nothing: from equal requests, the index that each prompt ends
-- with is read back as the same number.
pub bench_workload-distinct :
    (n max_tokens : ℕ)
    → let requests = bench_workload n max_tokens in
      (length requests ≡ n)
      × ((i j : ℕ) (r : Request) → nth i requests ≡ some r → nth j requests ≡ some r → i ≡ j)
unfolding bench_workload
bench_workload-distinct n max_tokens = (
  length-bench_from max_tokens 0 n,
  λ i j r hi hj.
      let alike : bench_request max_tokens (0 + i) ≡ bench_request max_tokens (0 + j) =
        sym (nth-bench_from max_tokens 0 n i r hi) ∙ nth-bench_from max_tokens 0 n j r hj in
      let same : (0 + i) ≡ (0 + j) =
        sym (index_of_request max_tokens (0 + i))
        ∙ ap (λ x. index_of (first_content x.messages)) alike
        ∙ index_of_request max_tokens (0 + j) in
      omega (arith, same),
)
