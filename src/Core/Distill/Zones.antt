-- ===== src/Core/Distill/Zones.antt =====
-- What the distilled context holds of the messages, and how long it is.
use native.Mathlib.Decide.{dec_le}
use multi_agent_orchestratio.Base.{
  ℕ, zero, suc, ◌+◌, ◌-◌, ◌≤◌, Bool, true, false, List, [], ◌∷◌, ◌++◌, ◌≡◌, refl, ◌∙◌, ap, arith,
  if◌then◌else◌, leb, truthy, length, take, drop, length-append, length-drop, append-nil,
}
use multi_agent_orchestratio.Core.Distill.{
  MessageOps, stable_prefix, after_prefix, suffix_of, summary, distill_rest, distill_context,
}

module _ {V : Type 0} (ops : MessageOps V) where
  prefix_append :
      (messages : List V) → stable_prefix ops messages ++ after_prefix ops messages ≡ messages
  unfolding stable_prefix after_prefix
  prefix_append [] = refl
  prefix_append (message ∷ messages) = ground (arith, prefix_append messages)

  length-suffix_of : (n : ℕ) (xs : List V) → length (suffix_of ops n xs) ≤ n
  length-suffix_of zero xs = omega arith
  length-suffix_of (suc n) xs = omega (arith, length-drop (length xs - suc n) xs)

  truthy-length : (xs : List V) → 1 ≤ length xs → truthy xs ≡ true
  truthy-length [] h = absurd (omega arith)
  truthy-length (x ∷ xs) h = refl

  length-distill_rest :
      (m n : ℕ) (template : V) (prefix rest : List V)
      → length (distill_rest ops m n template prefix rest) ≤ length prefix + (n + 1)
  unfolding distill_rest
  length-distill_rest m n template prefix rest =
      let suffix = suffix_of ops n rest in
      ground (
        arith,
        length-suffix_of n rest,
        length-append prefix suffix,
        length-append prefix (summary ops m template (take (length rest - n) rest) ∷ suffix),
      )

  -- The distilled context has at most the leading system messages, `keep_last_n_turns` more and one
  -- summary, however long the history is.
  pub length-distill_context :
      (max_middleware_tokens keep_last_n_turns : ℕ) (messages : List V)
      → length (distill_context ops max_middleware_tokens keep_last_n_turns messages)
        ≤ length (stable_prefix ops messages) + (keep_last_n_turns + 1)
  unfolding distill_context
  length-distill_context m n [] = omega arith
  length-distill_context m n (message ∷ messages) =
      length-distill_rest m n message (stable_prefix ops (message ∷ messages))
        (after_prefix ops (message ∷ messages))

  truthy-take : (k : ℕ) (xs : List V) → 1 ≤ k → 1 ≤ length xs → truthy (take k xs) ≡ true
  truthy-take zero xs hk h = absurd (omega arith)
  truthy-take (suc k) [] hk h = absurd (omega arith)
  truthy-take (suc k) (x ∷ xs) hk h = refl

  if_replaced :
      (b : Bool) {xs ys us : List V} (zs : List V)
      → us ≡ (if b then xs else zs)
      → xs ≡ ys
      → us ≡ (if b then ys else zs)
  if_replaced true zs h k = h ∙ k
  if_replaced false zs h k = h

  distill_rest_lem :
      (m n : ℕ) (template : V) (prefix rest : List V)
      → distill_rest ops m (suc n) template prefix rest ≡ (
          if leb (length rest) (suc n)
          then prefix ++ rest
          else prefix
            ++ (summary ops m template (take (length rest - suc n) rest)
                ∷ drop (length rest - suc n) rest))
  unfolding distill_rest
  distill_rest_lem m n template prefix [] = ground (arith, append-nil prefix)
  distill_rest_lem m n template prefix (x ∷ xs) =
      let rest = x ∷ xs in
      let older = length rest - suc n in
      let kept = truthy-length (drop older rest) in
      let long = length-drop older rest in
      elim (dec_le (length rest) (suc n)) [
        | yes short ↦
            let none_older : older ≡ 0 = omega arith in
            let none_taken : take older rest ≡ [] = ap (λ k. take k rest) none_older in
            let all_kept : drop older rest ≡ rest = ap (λ k. drop k rest) none_older in
            ground (arith, none_taken, all_kept)
        | no long ↦ ground (arith, kept, length-drop older rest, truthy-take older rest)
      ]

  -- Where at least one turn is kept: a history with no more turns than that is left as it is, and in
  -- a longer one exactly the turns before the last `keep_last_n_turns` become one summary, between
  -- the leading system messages and the kept turns, which stay as they are and in order. Each message
  -- behind the leading system messages is a turn, also a later system message.
  pub distill_context_lem :
      (max_middleware_tokens keep_last_n_turns : ℕ) (message : V) (messages : List V)
      → 1 ≤ keep_last_n_turns
      → let history = message ∷ messages in
        let prefix = stable_prefix ops history in
        let turns = after_prefix ops history in
        let older = length turns - keep_last_n_turns in
        distill_context ops max_middleware_tokens keep_last_n_turns history ≡ (
          if leb (length turns) keep_last_n_turns
          then history
          else prefix
            ++ (summary ops max_middleware_tokens message (take older turns) ∷ drop older turns))
  unfolding distill_context
  distill_context_lem m zero message messages h = absurd (omega arith)
  distill_context_lem m (suc n) message messages h =
      let history = message ∷ messages in
      let whole = prefix_append history in
      let rest =
        distill_rest_lem m n message (stable_prefix ops history) (after_prefix ops history) in
      if_replaced (leb (length (after_prefix ops history)) (suc n)) _ rest whole
