-- ===== src/Client/Exchange.antt =====
-- client/quic.go with listener/quic.go and stream.go: what a client and a server agree on and exchange.
use Prim.Native.String.{String}
use gopher_socks.Common.{
  ◌≡◌, ◌≢◌, refl, sym, ap, ◌∙◌, List, [], ◌∷◌, Option, none, some, true, false, ◌||◌, if◌then◌else◌,
  All, Bool-cases, inl, inr,
}
use gopher_socks.Common.Assoc.{lookup, insert, str_eq, str_eq_refl, str_eq-ne, lookup-insert}
use gopher_socks.Framing.Legacy.{codec, new_legacy}
use gopher_socks.Errors.{message_of, Result, ok, err}
use gopher_socks.Framing.Codec.{Codec}
use gopher_socks.Listener.Config.Options.{others}
use gopher_socks.Listener.Quic.{resolve_one}
use gopher_socks.Listener.Quic.Codecs.{Resolvable}
use gopher_socks.Client.Config.{ClientConfig, default_alpn, quic, with_client_quic_codec}
use gopher_socks.Client.Quic.{quic_config, codec_for}

-- What `resolve_one` and `codec_for` make of their lookups.
abbrev server_choice :
    gopher_socks.Listener.Config.QuicConfig → String → Option Codec → Result Codec
server_choice q p (some k) = ok k
server_choice q p none =
    if str_eq p default_alpn
    then elim (new_legacy q.delimiter) [ err e ↦ err e | ok l ↦ ok (codec l) ]
    else err (message_of "no codec for ALPN %q" p)

resolve_one-choice :
    (q : gopher_socks.Listener.Config.QuicConfig) (p : String)
    → resolve_one q p ≡ server_choice q p (lookup p q.codecs)
unfolding resolve_one
resolve_one-choice q p = go (lookup p q.codecs)
  where
    go :
        (o : Option Codec)
        → (elim o [
          | some c ↦ ok c
          | none ↦
              if str_eq p default_alpn
              then elim (new_legacy q.delimiter) [ err e ↦ err e | ok l ↦ ok (codec l) ]
              else err (message_of "no codec for ALPN %q" p)
        ])
          ≡ server_choice q p o
    go none = refl
    go (some c) = refl

abbrev client_choice : ClientConfig → String → Option Codec → Result Codec
client_choice c p (some k) = ok k
client_choice c p none =
    if str_eq p default_alpn || str_eq p ""
    then elim (new_legacy c.delimiter) [ err e ↦ err e | ok l ↦ ok (codec l) ]
    else err (message_of "gophersocks client: no codec for ALPN %q" p)

codec_for-choice :
    (c : ClientConfig) (p : String)
    → codec_for c p ≡ client_choice c p (lookup p (quic_config c).codecs)
unfolding codec_for
codec_for-choice c p = go (lookup p (quic_config c).codecs)
  where
    go :
        (o : Option Codec)
        → (elim o [
          | some own ↦ ok own
          | none ↦
              if str_eq p default_alpn || str_eq p ""
              then elim (new_legacy c.delimiter) [ err e ↦ err e | ok l ↦ ok (codec l) ]
              else err (message_of "gophersocks client: no codec for ALPN %q" p)
        ])
          ≡ client_choice c p o
    go none = refl
    go (some x) = refl

insert_self :
    (k : String) (v : Codec) (m : List (String × Codec)) → lookup k (insert k v m) ≡ some v
insert_self k v m = lookup-insert k k v m ∙ rw (str_eq_refl k) refl

insert-others :
    (k p : String) (v : Codec) (m : List (String × Codec))
    → k ≢ p
    → lookup p (insert k v m) ≡ lookup p m
insert-others k p v m ne = lookup-insert k p v m ∙ rw (str_eq-ne k p ne) refl

-- A protocol that both sides were given a codec for has that codec on both sides, and the codecs of
-- other protocols stay as they were.
pub add_codec-agrees :
    (alpn : String) (k : Codec) (q : gopher_socks.Listener.Config.QuicConfig) (c : ClientConfig)
    (own : gopher_socks.Client.Config.QuicConfig)
    → c.protocol_config ≡ quic own
    → let q' = gopher_socks.Listener.Config.Options.add_codec alpn k q in
      let c' = with_client_quic_codec alpn k c in
      (resolve_one q' alpn ≡ ok k)
      × (codec_for c' alpn ≡ ok k)
      × ((p : String)
          → alpn ≢ p
          → (resolve_one q' p ≡ resolve_one q p) × (codec_for c' p ≡ codec_for c p))
unfolding with_client_quic_codec gopher_socks.Listener.Config.Options.add_codec
    gopher_socks.Client.Config.add_codec
add_codec-agrees alpn k q c own e =
    let q' = gopher_socks.Listener.Config.Options.add_codec alpn k q in
    let c' = with_client_quic_codec alpn k c in
    let mine : (p : String)
        → lookup p (quic_config c').codecs ≡ lookup p (insert alpn k own.codecs) =
      λ p. rw e refl in
    let before : (p : String) → lookup p (quic_config c).codecs ≡ lookup p own.codecs =
      λ p. rw e refl in
    (
      resolve_one-choice q' alpn ∙ ap (server_choice q' alpn) (insert_self alpn k q.codecs),
      codec_for-choice c' alpn
          ∙ ap (client_choice c' alpn) (mine alpn ∙ insert_self alpn k own.codecs),
      λ p ne. (
        resolve_one-choice q' p
            ∙ ap (server_choice q p) (insert-others alpn p k q.codecs ne)
            ∙ sym (resolve_one-choice q p),
        codec_for-choice c' p
            ∙ ap (client_choice c p)
                (mine p ∙ insert-others alpn p k own.codecs ne ∙ sym (before p))
            ∙ sym (codec_for-choice c p),
      ),
    )

others-Resolvable :
    (alpn : String) (k : Codec) (q : gopher_socks.Listener.Config.QuicConfig) (ps : List String)
    → All (Resolvable q) ps
    → All (Resolvable (gopher_socks.Listener.Config.Options.add_codec alpn k q)) (others alpn ps)
unfolding others
others-Resolvable alpn k q [] h = tt
others-Resolvable alpn k q (p ∷ ps) ((c, e), h) = elim (Bool-cases (str_eq p alpn)) [
  | inl same ↦ rw (same, others) (others-Resolvable alpn k q ps h)
  | inr differs ↦ rw (differs, others) ((c, kept differs), others-Resolvable alpn k q ps h)
]
  where
    kept :
        str_eq p alpn ≡ false
        → resolve_one (gopher_socks.Listener.Config.Options.add_codec alpn k q) p ≡ ok c
    kept differs =
        unfold gopher_socks.Listener.Config.Options.add_codec in
        (resolve_one-choice (gopher_socks.Listener.Config.Options.add_codec alpn k q) p
          ∙ ap (server_choice q p) (insert-others alpn p k q.codecs (λ same. clash differs same))
          ∙ sym (resolve_one-choice q p)
          ∙ e)
      where
        clash : str_eq p alpn ≡ false → alpn ≡ p → ⊥
        clash differs same =
            let equal : str_eq p alpn ≡ true = ap (str_eq p) same ∙ str_eq_refl p in cc

-- If every ALPN protocol of a server's configuration has a codec, then so has every one after a codec is
-- added.
pub add_codec-Resolvable :
    (alpn : String) (k : Codec) (q : gopher_socks.Listener.Config.QuicConfig)
    → All (Resolvable q) q.alpn
    → let q' = gopher_socks.Listener.Config.Options.add_codec alpn k q in
      All (Resolvable q') q'.alpn
unfolding gopher_socks.Listener.Config.Options.add_codec
add_codec-Resolvable alpn k q h = (
  (
    k,
    resolve_one-choice (gopher_socks.Listener.Config.Options.add_codec alpn k q) alpn
        ∙ ap (server_choice q alpn) (insert_self alpn k q.codecs),
  ),
  others-Resolvable alpn k q q.alpn h,
)
