-- ===== src/Providers/Failover/Latency.antt =====
-- The latency history of a provider is a sliding window.
use native.Mathlib.Decide.{dec_le}
use multi_agent_orchestratio.Base.{
  ℕ, suc, ◌-◌, List, [], ◌∷◌, ◌++◌, ◌≡◌, sym, ◌∙◌, ap, arith, length, drop, length-append,
  length-drop, drop-append, drop-nil, append-nil, append_assoc, drop-one, ltb, true,
}
use multi_agent_orchestratio.Providers.Failover.{track_latency}

module _ {L : Type 0} where
  unfoldable pub track_all : ℕ → List L → List L → List L
  unfolding track_latency
  track_all max_history history [] = history
  track_all max_history history (latency ∷ latencies) =
      track_all max_history (track_latency max_history history latency) latencies

  -- The last `n` of a list.
  abbrev pub newest : ℕ → List L → List L
  newest n xs = drop (length xs - n) xs

  track_latency-newest :
      (max_history : ℕ) (seen : List L) (latency : L)
      → track_latency max_history (newest max_history seen) latency
        ≡ newest max_history (seen ++ latency ∷ [])
  unfolding track_latency
  track_latency-newest max_history seen latency = elim (dec_le max_history (length seen)) [
    | yes full ↦
        let start = length seen - max_history in
        let grown = seen ++ latency ∷ [] in
        let kept = drop-append start seen (latency ∷ []) (omega arith) in
        let long = length-append (drop start seen) (latency ∷ []) in
        let next = length-append seen (latency ∷ []) in
        let size : length (drop start seen ++ latency ∷ []) ≡ suc max_history =
          omega (arith, long, length-drop start seen) in
        let above : ltb max_history (length (drop start seen ++ latency ∷ [])) ≡ true =
          ground (arith, size) in
        let from : length grown - max_history ≡ suc start = omega (arith, next) in
        rw above (ap (drop 1) (sym kept) ∙ drop-one start grown ∙ ap (λ n. drop n grown) (sym from))
    | no room ↦ let next = length-append seen (latency ∷ []) in ground (arith, next)
  ]

  track_all-newest :
      (max_history : ℕ) (seen latencies : List L)
      → track_all max_history (newest max_history seen) latencies
        ≡ newest max_history (seen ++ latencies)
  unfolding track_all
  track_all-newest max_history seen [] = ap (newest max_history) (sym (append-nil seen))
  track_all-newest max_history seen (latency ∷ latencies) =
      ap (λ history. track_all max_history history latencies)
        (track_latency-newest max_history seen latency)
      ∙ track_all-newest max_history (seen ++ latency ∷ []) latencies
      ∙ ap (newest max_history) (append_assoc seen (latency ∷ []) latencies)

  -- After any number of calls the history is the newest `max_history` latencies, oldest first.
  pub track_all_lem :
      (max_history : ℕ) (latencies : List L)
      → track_all max_history [] latencies ≡ newest max_history latencies
  track_all_lem max_history latencies =
      ap (λ history. track_all max_history history latencies) (sym (drop-nil (0 - max_history)))
      ∙ track_all-newest max_history [] latencies
