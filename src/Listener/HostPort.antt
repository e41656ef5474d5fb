-- ===== src/Listener/HostPort.antt =====
-- listener/base.go, hostPort: the address that a server binds, as text.
use Prim.Native.String.{String, [] as empty, ◌∷◌ as ◌:>◌, ◌++◌ as ◌<>◌, slice}
use Prim.Native.String.append.{nil, cons}
use gopher_socks.Common.{
  ℕ, zero, suc, ◌+◌, ◌≡◌, ap, sym, ◌∙◌, Bool, false, ◌||◌, if◌then◌else◌, ◌%◌, ◌/◌, ltb,
}
use gopher_socks.Common.Assoc.{str_eq}

-- strings.TrimPrefix(host, "[").
unfoldable pub trim_open : String → String
trim_open empty = empty
trim_open (c :> s) = if str_eq (c :> empty) "[" then s else c :> s

-- strings.TrimSuffix(host, "]").
unfoldable pub trim_close : String → String
trim_close empty = empty
trim_close (c :> empty) = if str_eq (c :> empty) "]" then empty else c :> empty
trim_close (c :> d :> s) = c :> trim_close (d :> s)

abbrev pub has_colon : String → Bool
has_colon empty = false
has_colon (c :> s) = str_eq (c :> empty) ":" || has_colon s

-- net.JoinHostPort.
abbrev pub join_host_port : String → String → String
join_host_port host port =
    if has_colon host then "[" <> (host <> ("]:" <> port)) else host <> (":" <> port)

abbrev digit : ℕ → String
digit n = slice "0123456789" n (n + 1)

-- The last k + 1 decimal digits, without leading zeros.
abbrev decimal : ℕ → ℕ → String
decimal zero n = digit n
decimal (suc k) n =
    let front = decimal k (n / 10) in if ltb n 10 then digit n else front <> digit (n % 10)

-- strconv.Itoa of a uint16, which has at most five digits.
abbrev pub itoa : ℕ → String
itoa n = decimal 4 n

-- `hostPort`.
unfoldable pub host_port : String → ℕ → String
host_port host port = join_host_port (trim_close (trim_open host)) (itoa port)

-- A host that does not end with a bracket.
abbrev pub Plain : String → Type 0
Plain host = (trim_open host ≡ host) × (trim_close host ≡ host)

trim_close-bracket : (s : String) → trim_close (s <> "]") ≡ s
unfolding trim_close
trim_close-bracket empty = ap trim_close (nil "]")
trim_close-bracket (c :> empty) = ap trim_close (cons c empty "]" ∙ ap (λ x. c :> x) (nil "]"))
trim_close-bracket (c :> d :> s) =
    let later = trim_close-bracket (d :> s) in
    let later' : trim_close (d :> (s <> "]")) ≡ d :> s = rw (cons d s "]") at later in
    rw (cons c (d :> s) "]", cons d s "]") (ap (λ x. c :> x) later')

-- A host in brackets and the same host without them give one address.
pub host_port-brackets :
    (host : String) (port : ℕ)
    → Plain host
    → host_port ("[" <> (host <> "]")) port ≡ host_port host port
unfolding host_port trim_open
host_port-brackets host port plain =
    let opened : trim_open ("[" <> (host <> "]")) ≡ host <> "]" =
      ap trim_open (cons "[" empty (host <> "]") ∙ ap (λ x. "[" :> x) (nil (host <> "]"))) in
    let bare : trim_close (trim_open ("[" <> (host <> "]"))) ≡ trim_close (trim_open host) =
      ap trim_close opened ∙ trim_close-bracket host ∙ sym (ap trim_close plain.0 ∙ plain.1) in
    ap (λ h. join_host_port h (itoa port)) bare
