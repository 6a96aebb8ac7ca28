-- ===== src/Document/Http/Laws.antt =====
-- What a cache holds after any reads, and what a 304 gives then.
use xconf.Prelude.{
  ℕ, ◌≡◌, refl, Option, none, some, true, ◌&&◌, arith, List, [], ◌∷◌, is_some, Option-cases, ◌⊎◌,
  inl, inr, Bool-cases,
}
use xconf.Text.{Str}
use xconf.Error.{Error, Result, ok, err, Result-cases, not_cached}
use xconf.Layer.{Layer}
use xconf.Document.{Stream, Decoder, decode}
use xconf.Document
use xconf.Document.Http.{
  Cache, no_cache, Response, Settings, conditional, accept, respond, answer, outcome, read, reads,
}

-- The cached document can be decoded, and without one there are no validators.
abbrev pub IsDecodable : (Str → Str) → Settings → Cache → Type 0
IsDecodable digest s c = elim c.cached [
  | none ↦ (c.etag ≡ []) × (c.modified ≡ [])
  | some doc ↦ (l : Layer) × (decode digest doc s.decoder s.id [] ≡ ok l)
]

module _ (digest : Str → Str) (s : Settings) where
  accept-IsDecodable :
      (before after : Option Error) (resp : Response) (body : Stream) (c : Cache)
      → IsDecodable digest s c
      → IsDecodable digest s (accept digest s before after resp body c).0
  unfolding accept
  accept-IsDecodable before after resp body c v =
      elim (Result-cases (Document.read before after body s.limit)) [
        | inr (e, unread) ↦ rw (unread, accept) v
        | inl (all, whole) ↦ elim (Result-cases (decode digest all s.decoder s.id [])) [
          | inr (e, malformed) ↦ rw (whole, malformed, accept) v
          | inl (layer, decoded) ↦ rw (whole, decoded, accept) (layer, decoded)
        ]
      ]

  respond-IsDecodable :
      (before after : Option Error) (resp : Response) (body : Stream) (c : Cache)
      → IsDecodable digest s c
      → IsDecodable digest s (respond digest s before after resp body c).0
  unfolding respond
  respond-IsDecodable before after resp body c v =
      ground (arith, accept-IsDecodable before after resp body c v)

  answer-IsDecodable :
      (before after : Option Error) (out : Result (Option Response)) (c : Cache)
      → IsDecodable digest s c
      → IsDecodable digest s (answer digest s before after out c).0
  unfolding answer
  answer-IsDecodable before after (err e) c v = v
  answer-IsDecodable before after (ok none) c v = v
  answer-IsDecodable before after (ok (some resp)) c v = elim (Option-cases resp.body) [
    | inl missing ↦ rw (missing, answer) v
    | inr (body, given) ↦ rw (given, answer) (respond-IsDecodable before after resp body c v)
  ]

  read-IsDecodable :
      (ctx : ℕ → Option Error) (client : Str × Str → Result (Option Response)) (c : Cache)
      → IsDecodable digest s c
      → IsDecodable digest s (read digest s ctx client c).0
  unfolding read
  read-IsDecodable ctx client c v = elim (Bool-cases (s.timeout && is_some s.decoder)) [
    | inl usable ↦ rw usable (
        answer-IsDecodable (ctx 1) (ctx 2) (outcome (ctx 0) s.request (client (conditional c))) c v)
    | inr unusable ↦ rw unusable v
  ]

  -- What a 304 gives: the layer of the cached document, or an error where there is none.
  abbrev pub IsAnswered : Cache → Cache × Result Layer → Type 0
  IsAnswered c out =
      ((doc : Str) × (l : Layer) × (c.cached ≡ some doc)
        × (decode digest doc s.decoder s.id [] ≡ ok l)
        × (out ≡ (c, ok l)))
      ⊎ ((c.cached ≡ none) × (conditional c ≡ ([], [])) × (out ≡ (c, err not_cached)))

  respond_lem :
      (before after : Option Error) (resp : Response) (body : Stream) (c : Cache)
      → IsDecodable digest s c
      → resp.status ≡ 304
      → IsAnswered c (respond digest s before after resp body c)
  unfolding respond conditional
  respond_lem before after resp body c v unmodified = elim (Option-cases c.cached) [
    | inl empty ↦ inr (empty, rw empty refl, rw (unmodified, empty, respond) refl)
    | inr (doc, kept) ↦
        let w = rw kept at v in inl (doc, w.0, kept, w.1, rw (unmodified, kept, w.1, respond) refl)
  ]

  reads-IsDecodable :
      (history : List ((ℕ → Option Error) × (Str × Str → Result (Option Response)))) (c : Cache)
      → IsDecodable digest s c
      → IsDecodable digest s (reads digest s history c)
  unfolding reads
  reads-IsDecodable [] c v = v
  reads-IsDecodable ((ctx, client) ∷ more) c v =
      reads-IsDecodable more (read digest s ctx client c).0 (read-IsDecodable ctx client c v)

pub outcome_lem :
    (living made : Option Error) (answered : Result (Option Response)) (resp : Response)
    → living ≡ none
    → made ≡ none
    → answered ≡ ok (some resp)
    → outcome living made answered ≡ ok (some resp)
outcome_lem living made answered resp e f g = rw (e, f) g

-- After any reads, a 304 to a request that could be made leaves the cache. There is a cached document,
-- which can be decoded, and the read gives its layer; or there is none, the request had no
-- validators, and the read fails for that reason.
pub read-not_modified :
    (digest : Str → Str) (s : Settings)
    (history : List ((ℕ → Option Error) × (Str × Str → Result (Option Response))))
    (ctx : ℕ → Option Error) (client : Str × Str → Result (Option Response)) (resp : Response)
    (body : Stream)
    → let c = reads digest s history no_cache in
      (s.timeout && is_some s.decoder) ≡ true
      → ctx 0 ≡ none
      → s.request ≡ none
      → client (conditional c) ≡ ok (some resp)
      → resp.body ≡ some body
      → resp.status ≡ 304
      → IsAnswered digest s c (read digest s ctx client c)
unfolding read answer
read-not_modified digest s history ctx client resp body usable living made answered given
      unmodified =
    rw
      (
        usable,
        outcome_lem (ctx 0) s.request (client (conditional (reads digest s history no_cache))) resp
            living made answered,
        given,
        answer,
      )
      (respond_lem digest s (ctx 1) (ctx 2) resp body (reads digest s history no_cache)
        (reads-IsDecodable digest s history no_cache (refl, refl)) unmodified)
