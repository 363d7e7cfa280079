-- ===== src/Stream/Decoder.antt =====
-- The loop `buffer.extend(data); while True: ...` that the adapters write, over an abstract step.
-- websocket.py `feed_data`, cipher.py `AEADCipher.decrypt`, socks.py `patch_ota_reader`.
pub mod Laws
pub mod Maps
use python_proxy.Base.{ℕ, zero, suc, ◌+◌, ◌<◌, ◌≡◌, List, ◌++◌, Bytes}

-- One round of the loop: it returns to wait for more input, goes on, or raises. The state comes
-- back in each case, since what was assigned before stays assigned.
pub data Round (S E : Type 0) : Type 0 where
  wait : S → Round S E
  again : S → Round S E
  fail : E → S → Round S E

-- The loop's end. `exhausted` means that the fuel ran out, which no theorem lets happen.
pub data Outcome (S E : Type 0) : Type 0 where
  returned : S → Outcome S E
  raised : E → S → Outcome S E
  exhausted : Outcome S E

pub record Decoder (S E : Type 0) : Type 0 where
  pub step : S → Round S E
  pub extend : S → Bytes → S
  pub size : S → ℕ

module _ {S E : Type 0} (d : Decoder S E) where
  unfoldable pub loop : ℕ → S → Outcome S E
  loop zero s = exhausted
  loop (suc fuel) s = elim (d.step s) [
    | wait t ↦ returned t
    | again t ↦ loop fuel t
    | fail e t ↦ raised e t
  ]

  unfoldable pub run : S → Outcome S E
  unfolding loop
  run s = loop (suc (d.size s)) s

  -- One call of the adapter with the bytes that arrived.
  unfoldable pub feed : S → Bytes → Outcome S E
  unfolding run
  feed s bytes = run (d.extend s bytes)

-- What a decoder owes the loop: each round that goes on uses something up, and later bytes do not
-- change what a round does with the bytes before them.
pub record IsStream {S E : Type 0} (d : Decoder S E) : Type 0 where
  pub shrinks : (s t : S) → d.step s ≡ again t → d.size t < d.size s
  pub extends : (s : S) (a b : Bytes) → d.extend (d.extend s a) b ≡ d.extend s (a ++ b)
  pub goes_on :
      (s t : S) (b : Bytes) → d.step s ≡ again t → d.step (d.extend s b) ≡ again (d.extend t b)
  pub waits :
      (s t : S) (b : Bytes) → d.step s ≡ wait t → d.step (d.extend s b) ≡ d.step (d.extend t b)
