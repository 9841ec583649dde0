-- ===== src/Deferred/Numbering.antt =====
-- service.rs: the sequence numbers of fetched events.
use open_switcher.Key.{Key}
use open_switcher.Prelude.{
  ℕ, zero, suc, ◌+◌, ◌%◌, ◌≡◌, ap, ◌∙◌, List, [], ◌∷◌, map, length, arith, u64_max,
}
use open_switcher.Deferred.{
  InputEvent, key_event, other_event, take_next_nonzero_physical_sequence_id,
  sequence_fetched_physical_input_events,
}

-- Number `i` of the numbering that runs through 1, 2, …, 2^64 - 1 and starts again.
abbrev pub nth_id : ℕ → ℕ
nth_id i = i % u64_max + 1

-- `n` numbers from the `i`-th on.
abbrev pub ids_from : ℕ → ℕ → List ℕ
ids_from i zero = []
ids_from i (suc n) = nth_id i ∷ ids_from (suc i) n

-- The key, value and time of the key events, in order.
abbrev pub key_events : List InputEvent → List (Key × ℕ × ℕ)
key_events [] = []
key_events (other_event ∷ es) = key_events es
key_events (key_event k v t ∷ es) = (k, v, t) ∷ key_events es

take_next-nth :
    (i : ℕ) → take_next_nonzero_physical_sequence_id (nth_id i) ≡ (nth_id i, nth_id (suc i))
unfolding take_next_nonzero_physical_sequence_id
take_next-nth i = ground arith

-- A fetched batch becomes its key events in order, numbered one after the other from 1 to 2^64 - 1
-- and round again, never 0; the counter is left at the next number.
pub sequence_fetched-ids :
    (es : List InputEvent) (i : ℕ)
    → let (sequenced, next) = sequence_fetched_physical_input_events es (nth_id i) in
      (map (λ e. e.sequence_id) sequenced ≡ ids_from i (length (key_events es)))
      × (map (λ e. (e.key, e.value, e.timestamp)) sequenced ≡ key_events es)
      × (next ≡ nth_id (i + length (key_events es)))
unfolding sequence_fetched_physical_input_events
sequence_fetched-ids [] i = ground arith
sequence_fetched-ids (other_event ∷ es) i = sequence_fetched-ids es i
sequence_fetched-ids (key_event k v t ∷ es) i =
    let ih = sequence_fetched-ids es (suc i) in
    rw (take_next-nth i)
      (ap (◌∷◌ (nth_id i)) ih.0, ap (◌∷◌ (k, v, t)) ih.1, ih.2 ∙ ap nth_id (omega arith))
