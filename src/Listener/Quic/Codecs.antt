-- ===== src/Listener/Quic/Codecs.antt =====
-- quic.go: which codec serves an ALPN protocol.
use Prim.Native.String.{String}
use gopher_socks.Common.{
  ◌⊎◌, ◌≡◌, ◌≢◌, refl, ap, sym, ◌∙◌, List, [], ◌∷◌, Option, none, some, Bool, true, false, ◌||◌,
  All, if◌then◌else◌, arith, Bool-cases, inl, inr,
}
use gopher_socks.Common.Assoc.{lookup, insert, str_eq, str_eq→eq, str_eq_refl, lookup-insert}
use gopher_socks.Errors.{Error, message, Result, ok, err, Result-cases}
use gopher_socks.Framing.Codec.{Codec}
use gopher_socks.Listener.Config.{QuicConfig}
use gopher_socks.Listener.Quic.{resolve_one, resolve_loop, resolve_codecs, not_empty, pick_codec}

abbrev pub elem : String → List String → Bool
elem k [] = false
elem k (j ∷ js) = str_eq j k || elem k js

-- The protocol has a codec of its own, or is the default one with a delimiter that is not empty.
abbrev pub Resolvable : QuicConfig → String → Type 0
Resolvable q alpn = (c : Codec) × (resolve_one q alpn ≡ ok c)

abbrev pub to_option {ℓ} : {A : Type ℓ} → Result A → Option A
to_option (ok a) = some a
to_option (err e) = none

resolve_loop-resolves :
    (q : QuicConfig) (alpns : List String) (out : List (String × Codec))
    → All (Resolvable q) alpns
    → (out' : List (String × Codec)) × ((resolve_loop q alpns out ≡ ok out')
        × ((k : String)
            → lookup k out' ≡ (if elem k alpns then to_option (resolve_one q k) else lookup k out)))
unfolding resolve_loop
resolve_loop-resolves q [] out h = (out, (refl, λ k. refl))
resolve_loop-resolves q (alpn ∷ alpns) out ((c, e), h) =
    let (out', found) = resolve_loop-resolves q alpns (insert alpn c out) h in
    (out', (rw (e, resolve_loop) found.0, λ k. found.1 k ∙ later k))
  where
    later :
        (k : String)
        → (if elem k alpns then to_option (resolve_one q k) else lookup k (insert alpn c out))
          ≡ (if str_eq alpn k || elem k alpns then to_option (resolve_one q k) else lookup k out)
    later k = elim (Bool-cases (str_eq alpn k)) [
      | inr far ↦ rw (lookup-insert alpn k c out, far) refl
      | inl near ↦
          let own : to_option (resolve_one q k) ≡ some c =
            ap to_option (ap (resolve_one q) (sym (str_eq→eq alpn k near)) ∙ e) in
          rw (lookup-insert alpn k c out, near, own) (ground arith)
    ]

not_empty-found :
    (k : String) (c : Codec) (out : List (String × Codec))
    → lookup k out ≡ some c
    → not_empty (ok out) ≡ ok out
unfolding lookup
not_empty-found k c [] h = cc
not_empty-found k c (e ∷ out) h = refl

pick_codec-found :
    (k : String) (c : Codec) (out : List (String × Codec))
    → lookup k out ≡ some c
    → pick_codec out k ≡ some c
unfolding pick_codec
pick_codec-found k c out h = rw (h, pick_codec) refl

-- With at least one ALPN protocol, each with a codec, resolving succeeds, and a connection that
-- negotiated one of them is served with that protocol's codec.
pub resolve_codecs-resolves :
    (q : QuicConfig)
    → q.alpn ≢ []
    → All (Resolvable q) q.alpn
    → (out : List (String × Codec)) × ((resolve_codecs q ≡ ok out)
        × ((k : String) (c : Codec)
            → elem k q.alpn ≡ true
            → resolve_one q k ≡ ok c
            → pick_codec out k ≡ some c))
unfolding resolve_codecs
resolve_codecs-resolves q full every =
    let (out, found) = resolve_loop-resolves q q.alpn [] every in
    let has : (k : String) (c : Codec)
        → elem k q.alpn ≡ true
        → resolve_one q k ≡ ok c
        → lookup k out ≡ some c =
      λ k c h e. found.1 k ∙ rw (h, e) refl in
    (
      out,
      (rw found.0 (go q.alpn full every has), λ k c h e. pick_codec-found k c out (has k c h e)),
    )
  where
    go :
        {out : List (String × Codec)} (alpns : List String)
        → alpns ≢ []
        → All (Resolvable q) alpns
        → ((k : String) (c : Codec)
            → elem k alpns ≡ true
            → resolve_one q k ≡ ok c
            → lookup k out ≡ some c)
        → not_empty (ok out) ≡ ok out
    go [] ne every has = absurd (ne refl)
    go {out} (k ∷ ks) ne ((c, e), others) has =
        not_empty-found k c out (has k c (rw (str_eq_refl k) refl) e)

resolve_loop-fails :
    (q : QuicConfig) (alpns : List String) (out : List (String × Codec)) (k : String) (e : Error)
    → elem k alpns ≡ true
    → resolve_one q k ≡ err e
    → (e' : Error) × (resolve_loop q alpns out ≡ err e')
unfolding resolve_loop
resolve_loop-fails q [] out k e here h = cc
resolve_loop-fails q (alpn ∷ alpns) out k e here h = elim (Result-cases (resolve_one q alpn)) [
  | inl (x, eq) ↦ (x, rw (eq, resolve_loop) refl)
  | inr (c, eq) ↦ elim (Bool-cases (str_eq alpn k)) [
    | inr far ↦
        rw (eq, resolve_loop)
          (resolve_loop-fails q alpns (insert alpn c out) k e (rw far at here) h)
    | inl near ↦
        let same : resolve_one q alpn ≡ resolve_one q k =
          ap (resolve_one q) (str_eq→eq alpn k near) in
        let clash : ◌≡◌ {A = Result Codec} (ok c) (err e) = sym eq ∙ same ∙ h in cc
  ]
]

-- A protocol without a codec makes the configuration fail, and so does an empty list.
pub resolve_codecs-fails :
    (q : QuicConfig)
    → ((q.alpn ≡ [])
        ⊎ ((k : String) × (e : Error) × (elem k q.alpn ≡ true) × (resolve_one q k ≡ err e)))
    → (e' : Error) × (resolve_codecs q ≡ err e')
unfolding resolve_codecs
resolve_codecs-fails q (inl bare) =
    (message "no ALPN protocols configured", unfold resolve_loop in rw bare refl)
resolve_codecs-fails q (inr (k, e, here, h)) =
    let (e', f) = resolve_loop-fails q q.alpn [] k e here h in (e', ap not_empty f)
