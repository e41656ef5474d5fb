-- ===== src/Listener/Session/TooLong.antt =====
-- session.go and stream.go: SendToClient and the codec of a stream have different limits.
use gopher_socks.Common.{
  ℕ, ◌<◌, ◌≡◌, refl, List, [], ◌∷◌, ◌++◌, Option, none, some, true, length, ltb, arith,
}
use gopher_socks.Common.Int.{pos, ◌≤ℤ◌}
use gopher_socks.Errors.{Error, errorf, sentinel, frame_too_large}
use gopher_socks.Framing.Codec.{Codec, max_uint16}
use gopher_socks.Framing.Legacy.{Legacy, codec, append}
use gopher_socks.Listener.Stream.{StreamTransport, WriteEnv, encode, and_then, write_messages}
use gopher_socks.Listener.Stream.Batches.{write_messages-refused}
use gopher_socks.Listener.Session.{Session, queued, send_to_client}

-- The codec takes no message like this.
abbrev Refuses : Codec → List ℕ → Type 0
Refuses c m = (dst : List ℕ) → (e : Error) × ((c.append dst m).1 ≡ some e)

and_then_fails :
    (next : List ℕ → List ℕ × Option Error)
    → ((b : List ℕ) → (e : Error) × ((next b).1 ≡ some e))
    → (r : List ℕ × Option Error) → (e : Error) × ((and_then next r).1 ≡ some e)
and_then_fails next h (buf, none) = h buf
and_then_fails next h (buf, some e) = (e, refl)

and_then_stays :
    (next : List ℕ → List ℕ × Option Error) (r : List ℕ × Option Error) (e : Error)
    → r.1 ≡ some e
    → (and_then next r).1 ≡ some e
and_then_stays next (buf, none) e h = cc
and_then_stays next (buf, some x) e h = h

encode-Refuses :
    (c : Codec) (m : List ℕ)
    → Refuses c m
    → (front back : List (List ℕ)) (buf : List ℕ)
    → (e : Error) × ((encode c buf (front ++ m ∷ back)).1 ≡ some e)
unfolding encode
encode-Refuses c m refuses [] back buf =
    let (e, h) = refuses buf in (e, and_then_stays (λ b. encode c b back) (c.append buf m) e h)
encode-Refuses c m refuses (x ∷ front) back buf =
    and_then_fails (λ b. encode c b (front ++ m ∷ back))
      (λ b. encode-Refuses c m refuses front back b) (c.append buf x)

append-Refuses : (c : Legacy) (m : List ℕ) → max_uint16 < length m → Refuses (codec c) m
unfolding append
append-Refuses c m long dst = (
  errorf "%w: %d > %d" (pos (length m) ∷ pos max_uint16 ∷ []) (sentinel frame_too_large),
  rw (over, append) refl,
)
  where
    over : ltb max_uint16 (length m) ≡ true
    over = ground arith

-- A message longer than the Legacy framing carries, in an open session whose limit allows it, is taken
-- by SendToClient; the batch that has it fails as a whole, and none of its messages is written.
pub accepted_refused :
    (c : Legacy) (s : Session) (m : List ℕ) (t : StreamTransport) (env : WriteEnv)
    (front back : List (List ℕ))
    → t.codec ≡ codec c
    → max_uint16 < length m
    → pos (length m) ≤ℤ s.max_len
    → s.cause ≡ none
    → length s.out < s.queue
    → ((send_to_client m s).0 ≡ queued)
      × ((e : Error) × (write_messages env t (front ++ m ∷ back) ≡ (some e, t)))
accepted_refused c s m t env front back same long short live room =
    let (e, h) = encode-Refuses (codec c) m (append-Refuses c m long) front back [] in
    (
      unfold send_to_client in rw live (ground arith),
      (e, write_messages-refused env t (front ++ m ∷ back) e (rw same h)),
    )
