-- ===== src/Document/Http/Again.antt =====
-- What a 304 gives after a read that succeeded.
use mathlib.Core.Path.{subst}
use xconf.Prelude.{
  [], ℕ, ◌≡◌, refl, Option, none, some, true, ◌&&◌, is_some, Option-cases, inl, inr, Bool-cases,
  ◌==◌,
}
use xconf.Text.{Str}
use xconf.Error.{Error, Result, ok, err, Result-cases, not_cached}
use xconf.Layer.{Layer}
use xconf.Document.{Stream, decode}
use xconf.Document
use xconf.Document.Http.{
  Cache, Response, Settings, conditional, accept, respond, answer, outcome, read,
}
use xconf.Document.Http.Laws.{outcome_lem}

module _ (digest : Str → Str) (s : Settings) where
  -- A read that gives a layer leaves the document of that layer in the cache.
  abbrev IsCached : Cache × Result Layer → Type 0
  IsCached (c, err e) = Unit
  IsCached (c, ok l) =
      (doc : Str) × (c.cached ≡ some doc) × (decode digest doc s.decoder s.id [] ≡ ok l)

  module _ (before after : Option Error) where
    accept-IsCached :
        (resp : Response) (body : Stream) (c : Cache)
        → IsCached (accept digest s before after resp body c)
    unfolding accept
    accept-IsCached resp body c = elim (Result-cases (Document.read before after body s.limit)) [
      | inr (e, unread) ↦ rw (unread, accept) tt
      | inl (all, whole) ↦ elim (Result-cases (decode digest all s.decoder s.id [])) [
        | inr (e, malformed) ↦ rw (whole, malformed, accept) tt
        | inl (layer, decoded) ↦ rw (whole, decoded, accept) (all, refl, decoded)
      ]
    ]

    cached-IsCached :
        (c : Cache)
        → IsCached (
          c,
          elim c.cached [ none ↦ err not_cached | some doc ↦ decode digest doc s.decoder s.id [] ],
        )
    cached-IsCached c = elim (Option-cases c.cached) [
      | inl empty ↦ rw empty tt
      | inr (doc, kept) ↦ elim (Result-cases (decode digest doc s.decoder s.id [])) [
        | inr (e, malformed) ↦ rw (kept, malformed) tt
        | inl (layer, decoded) ↦ rw (kept, decoded) (doc, kept, decoded)
      ]
    ]

    respond-IsCached :
        (resp : Response) (body : Stream) (c : Cache)
        → IsCached (respond digest s before after resp body c)
    unfolding respond
    respond-IsCached resp body c = elim (Bool-cases (resp.status == 304)) [
      | inl unmodified ↦ rw unmodified (cached-IsCached c)
      | inr e ↦ elim (Bool-cases (resp.status == 404)) [
        | inl missing ↦ rw (e, missing) tt
        | inr f ↦ elim (Bool-cases (resp.status == 200)) [
          | inl good ↦ rw (e, f, good) (accept-IsCached resp body c)
          | inr g ↦ rw (e, f, g) tt
        ]
      ]
    ]

    answer-IsCached :
        (out : Result (Option Response)) (c : Cache) → IsCached (answer digest s before after out c)
    unfolding answer
    answer-IsCached (err e) c = tt
    answer-IsCached (ok none) c = tt
    answer-IsCached (ok (some resp)) c = elim (Option-cases resp.body) [
      | inl missing ↦ rw (missing, answer) tt
      | inr (body, given) ↦ rw (given, answer) (respond-IsCached resp body c)
    ]

  read-IsCached :
      (ctx : ℕ → Option Error) (client : Str × Str → Result (Option Response)) (c : Cache)
      → IsCached (read digest s ctx client c)
  unfolding read
  read-IsCached ctx client c = elim (Bool-cases (s.timeout && is_some s.decoder)) [
    | inl usable ↦
        rw usable
          (answer-IsCached (ctx 1) (ctx 2) (outcome (ctx 0) s.request (client (conditional c))) c)
    | inr unusable ↦ rw unusable tt
  ]

  respond-cached :
      (before after : Option Error) (resp : Response) (body : Stream) (c : Cache) (l : Layer)
      → IsCached (c, ok l)
      → resp.status ≡ 304
      → respond digest s before after resp body c ≡ (c, ok l)
  unfolding respond
  respond-cached before after resp body c l (doc, kept, decoded) unmodified =
      rw (unmodified, kept, decoded, respond) refl

-- Where a read has given a layer, a 304 to the next request that can be made gives the same layer, and
-- leaves the cache.
pub read-again :
    (digest : Str → Str) (s : Settings) (first : ℕ → Option Error)
    (asked : Str × Str → Result (Option Response)) (before c : Cache) (l : Layer)
    (ctx : ℕ → Option Error) (client : Str × Str → Result (Option Response)) (resp : Response)
    (body : Stream)
    → read digest s first asked before ≡ (c, ok l)
    → (s.timeout && is_some s.decoder) ≡ true
    → ctx 0 ≡ none
    → s.request ≡ none
    → client (conditional c) ≡ ok (some resp)
    → resp.body ≡ some body
    → resp.status ≡ 304
    → read digest s ctx client c ≡ (c, ok l)
unfolding read answer
read-again digest s first asked before c l ctx client resp body gave usable living made answered
      given unmodified =
    rw
      (
        usable,
        outcome_lem (ctx 0) s.request (client (conditional c)) resp living made answered,
        given,
        answer,
      )
      (respond-cached digest s (ctx 1) (ctx 2) resp body c l
        (subst (IsCached digest s) gave (read-IsCached digest s first asked before)) unmodified)
