-- ===== src/Framing/Tests.antt =====
-- framing.go on concrete inputs, some of them those of framing_test.go.
use gopher_socks.Common.{length, ℕ, ◌≤◌, ◌≡◌, refl, ◌≢◌, List, [], ◌∷◌, ◌++◌, some, arith, Bool}
use gopher_socks.Common.Int.{pos}
use gopher_socks.Errors.{
  sentinel, eof, unexpected_eof, frame_too_large, empty_delimiter, Result, ok, err, errorf,
}
use gopher_socks.Framing.Reader.{Reader, scan, read_full, read_uvarint, uvarint_loop}
use gopher_socks.Framing.Bytes.{bytes_equal}
use gopher_socks.Framing.Legacy.{
  Legacy, default_delimiter, append, frame_end, round, read_one, read_loop, read, new_legacy,
}
use gopher_socks.Framing.Legacy.Frames.{frame}
use gopher_socks.Framing.Legacy.RoundTrip.{read-append, Unambiguous}
use gopher_socks.Framing.Legacy.Sound.{read-Delivers, read-total, Delivers}
use gopher_socks.Framing.Legacy.Limit.{read_over_max, read_any_max}
use gopher_socks.Framing.Legacy.Clear.{none_ends, is_clear, is_clear_iff}
use gopher_socks.Framing.Prefix.{
  append_uint32, read_uint32_frame, read_uvarint_frame, read_header, read_payload,
}
use gopher_socks.Framing.Prefix.Sound.{read_uint32_sound, read_uvarint_sound}
use gopher_socks.Framing.Prefix.Truncated.{read_uint32-truncated}

abbrev legacy : Legacy
legacy = record { delim = default_delimiter }

abbrev stream : List ℕ → Reader
stream bs = record { bytes = bs; size = 16; fail = sentinel eof }

-- A payload that holds the delimiter, as a protobuf message may.
abbrev wedge : List ℕ
wedge = 0x08 ∷ 0x01 ∷ 10 ∷ 10 ∷ 10 ∷ 0x12 ∷ []

delimiter_inside :
    read legacy (stream ((append legacy [] wedge).0 ++ 7 ∷ [])) (pos 100)
    ≡ some (ok wedge, stream (7 ∷ []))
unfolding read read_loop read_one round frame_end append scan bytes_equal
delimiter_inside = refl

empty_skipped :
    read legacy (stream ((append legacy [] []).0 ++ (append legacy [] wedge).0)) (pos 100)
    ≡ some (ok wedge, stream [])
unfolding read read_loop read_one round frame_end append scan bytes_equal
empty_skipped = refl

-- The payload that the fuzzer found: it begins with an empty frame.
ambiguous : is_clear legacy (0 ∷ 0 ∷ 10 ∷ 10 ∷ 10 ∷ 1 ∷ []) ≡ Bool.false
unfolding is_clear none_ends frame_end frame bytes_equal
ambiguous = refl

no_delimiter : new_legacy [] ≡ err (sentinel empty_delimiter)
unfolding new_legacy
no_delimiter = refl

wedge-Unambiguous : Unambiguous legacy wedge
unfolding is_clear none_ends frame_end frame bytes_equal
wedge-Unambiguous = (is_clear_iff legacy wedge).0 refl

delim_full : default_delimiter ≢ []
delim_full e = cc

read-append_example :
    read legacy (stream ((append legacy [] wedge).0 ++ 7 ∷ [])) (pos 6)
    ≡ some (ok wedge, stream (7 ∷ []))
read-append_example =
    read-append legacy (pos 6) 0x08 (0x01 ∷ 10 ∷ 10 ∷ 10 ∷ 0x12 ∷ []) (7 ∷ [])
      (stream ((append legacy [] wedge).0 ++ 7 ∷ [])) delim_full wedge-Unambiguous (omega arith)
      (omega arith) (omega arith) refl

read-Delivers_example :
    Delivers legacy (pos 100) (stream (5 ∷ 0 ∷ 1 ∷ 10 ∷ 10 ∷ 10 ∷ [])) (5 ∷ []) []
unfolding read read_loop read_one round frame_end scan bytes_equal
read-Delivers_example =
    read-Delivers legacy (pos 100) (stream (5 ∷ 0 ∷ 1 ∷ 10 ∷ 10 ∷ 10 ∷ [])) (stream []) (5 ∷ [])
      (omega arith) (omega arith) refl

read-total_example :
    (res : Result (List ℕ)) × (r' : Reader) × (read legacy (stream (1 ∷ 10 ∷ [])) (pos 5)
      ≡ some (res, r'))
read-total_example = read-total legacy (pos 5) (stream (1 ∷ 10 ∷ [])) (omega arith)

read_over_max_example :
    read legacy (stream ((append legacy [] wedge).0 ++ [])) (pos 5) ≡ some (ok wedge, stream [])
read_over_max_example =
    read_over_max legacy 5 0x08 (0x01 ∷ 10 ∷ 10 ∷ 10 ∷ 0x12 ∷ []) []
      (stream ((append legacy [] wedge).0 ++ [])) delim_full wedge-Unambiguous (omega arith)
      (omega arith) (omega arith) refl

-- With ";" for a delimiter a limit of 1 lets three bytes through.
read_any_max_example :
    read (record { delim = 59 ∷ [] }) (stream (1 ∷ 2 ∷ 3 ∷ 0 ∷ 3 ∷ 59 ∷ 9 ∷ [])) (pos 1)
    ≡ some (ok (1 ∷ 2 ∷ 3 ∷ []), stream (9 ∷ []))
unfolding append
read_any_max_example =
    read_any_max (record { delim = 59 ∷ [] }) (pos 1) 1 (2 ∷ 3 ∷ []) (1 ∷ 2 ∷ 3 ∷ 0 ∷ 3 ∷ [])
      (9 ∷ []) (stream (1 ∷ 2 ∷ 3 ∷ 0 ∷ 3 ∷ 59 ∷ 9 ∷ [])) (omega arith) refl
      (refl, (refl, (refl, (refl, (refl, tt))))) (omega arith) refl

too_large :
    read_uint32_frame (stream (0 ∷ 0 ∷ 0 ∷ 9 ∷ 1 ∷ [])) (pos 8)
    ≡ (err (errorf "%w: %d > %d" (pos 9 ∷ pos 8 ∷ []) (sentinel frame_too_large)), stream (1 ∷ []))
unfolding read_uint32_frame read_header read_payload read_full
too_large = refl

read_uint32_sound_example :
    (0 ∷ 0 ∷ 0 ∷ 1 ∷ 5 ∷ 6 ∷ [] ≡ (append_uint32 [] (5 ∷ [])).0 ++ 6 ∷ []) × (1 ≤ 8)
unfolding read_uint32_frame read_header read_payload read_full
read_uint32_sound_example =
    read_uint32_sound (pos 8) (stream (0 ∷ 0 ∷ 0 ∷ 1 ∷ 5 ∷ 6 ∷ [])) (stream (6 ∷ [])) (5 ∷ [])
      (omega arith) refl

read_uint32-truncated_example :
    (read_uint32_frame (stream (0 ∷ 0 ∷ 0 ∷ 2 ∷ 5 ∷ [])) (pos 8)).0 ≡ err (sentinel unexpected_eof)
unfolding append_uint32
read_uint32-truncated_example =
    read_uint32-truncated (pos 8) (5 ∷ 6 ∷ []) (0 ∷ 0 ∷ 0 ∷ 2 ∷ 5 ∷ []) (6 ∷ [])
      (stream (0 ∷ 0 ∷ 0 ∷ 2 ∷ 5 ∷ [])) (omega arith) (omega arith) refl (λ e. cc) refl refl

abbrev five : List ℕ
five = 5 ∷ []

read_uvarint_sound_example :
    ((read_uvarint (stream (1 ∷ 5 ∷ 6 ∷ []))).0 ≡ ok (length five))
    × (length five ≤ 8)
    × ((hdr : List ℕ) × (1 ∷ 5 ∷ 6 ∷ [] ≡ hdr ++ (five ++ 6 ∷ [])) × (length hdr ≤ 10))
unfolding read_uvarint_frame read_header read_payload read_full read_uvarint uvarint_loop
read_uvarint_sound_example =
    read_uvarint_sound (pos 8) (stream (1 ∷ 5 ∷ 6 ∷ [])) (stream (6 ∷ [])) five refl
