-- ===== src/Sources/Resilient.antt =====
-- `Resilient` of sources.go: a source that serves its last good layer while it fails, and the loop
-- that retries.
pub mod Backoff
use xconf.Prelude.{
  ℕ, ◌≡◌, refl, ap, sym, ◌∙◌, ◌⊎◌, inl, inr, Bool, true, false, Option, none, some, List, [], ◌∷◌,
  arith,
}
use xconf.Error.{Error, Result, ok, err, ◌>>=◌, Yields, Result-cases}
use xconf.Layer.{Layer, no_layer}
use xconf.Layer.Clone.{clone_layer, clone_edits, clone_values}
use xconf.Layer.Clone.Laws.{IsCopied, clone_layer-IsCopied, clone_layer-copied}

-- The channels `wakes`, which `read` signals when it fails, are an input of the loop in Backoff.
pub record Resilient : Type 0 where
  pub last : Layer
  pub failing : Bool

abbrev pub fresh : Resilient
fresh = record { last = no_layer; failing = false }

-- cloneLayer, whose error the code drops together with the layer.
abbrev pub copy_or_empty : Layer → Layer
copy_or_empty l = elim (clone_layer l) [ ok c ↦ c | err e ↦ no_layer ]

unfoldable pub serve : Error → Resilient → Resilient × Layer
serve e r = (record r { failing = true }, record (copy_or_empty r.last) { stale = some e })

-- resilient.Read: it has no error result of its own.
unfoldable pub read : Result Layer → Resilient → Resilient × Layer
unfolding serve
read (err e) r = serve e r
read (ok l) r = elim (clone_layer l) [
  | err e ↦ serve e r
  | ok good ↦ (record { last = record good { stale = none }; failing = false }, l)
]

-- The layer kept for bad times can be copied.
abbrev pub IsGood : Resilient → Type 0
IsGood r = IsCopied r.last

-- The reads of a source, one after the other.
unfoldable pub reads : List (Result Layer) → Resilient → Resilient
reads [] r = r
reads (inner ∷ more) r = reads more (read inner r).0

read-IsGood : (inner : Result Layer) (r : Resilient) → IsGood r → IsGood (read inner r).0
unfolding read
read-IsGood (err e) r v = v
read-IsGood (ok l) r v = elim (Result-cases (clone_layer l)) [
  | inl (good, e) ↦ rw (e, read) ((rw e at (clone_layer-IsCopied l)).0)
  | inr (x, e) ↦ rw (e, read) v
]

reads-IsGood : (inners : List (Result Layer)) (r : Resilient) → IsGood r → IsGood (reads inners r)
unfolding reads
reads-IsGood [] r v = v
reads-IsGood (inner ∷ more) r v = reads-IsGood more (read inner r).0 (read-IsGood inner r v)

fresh-IsGood : IsGood fresh
unfolding clone_edits clone_values
fresh-IsGood = (refl, refl)

copy_or_empty-good : (r : Resilient) → IsGood r → copy_or_empty r.last ≡ r.last
copy_or_empty-good r v = rw (clone_layer-copied r.last v, copy_or_empty) refl

-- The layer of the last read that succeeded with a layer that can be copied: the copy, without the mark;
-- the given one where there was no such read.
unfoldable pub last_good : List (Result Layer) → Layer → Layer
last_good [] before = before
last_good (err e ∷ more) before = last_good more before
last_good (ok l ∷ more) before =
    last_good more
      (elim (clone_layer l) [ err e ↦ before | ok good ↦ record good { stale = none } ])

last-read :
    (l : Layer) (r : Resilient)
    → (read (ok l) r).0.last
      ≡ (elim (clone_layer l) [ err e ↦ r.last | ok good ↦ record good { stale = none } ])
unfolding read serve
last-read l r = elim (Result-cases (clone_layer l)) [
  | inl (good, e) ↦ rw (e, read) refl
  | inr (x, e) ↦ rw (e, read) refl
]

reads-last_good :
    (inners : List (Result Layer)) (r : Resilient) → (reads inners r).last ≡ last_good inners r.last
unfolding reads last_good read serve
reads-last_good [] r = refl
reads-last_good (err e ∷ more) r = reads-last_good more (read (err e) r).0
reads-last_good (ok l ∷ more) r =
    reads-last_good more (read (ok l) r).0 ∙ ap (last_good more) (last-read l r)

-- After any reads, a read that fails serves the layer of the last read that succeeded with a layer that can
-- be copied, or an empty one, marked stale with the error; and the source counts as failing.
pub read-err :
    (inners : List (Result Layer)) (e : Error)
    → let good = last_good inners no_layer in
      read (err e) (reads inners fresh)
      ≡ (record { last = good; failing = true }, record good { stale = some e })
unfolding read serve
read-err inners e =
    ap (λ l. (record (reads inners fresh) { failing = true }, record l { stale = some e }))
      (copy_or_empty-good (reads inners fresh) (reads-IsGood inners fresh fresh-IsGood))
    ∙ ap (λ l. (record { last = l; failing = true }, record l { stale = some e }))
        (reads-last_good inners fresh)

-- A read that succeeds with a layer that can be copied passes it on as it is, ends the failure, and
-- keeps its copy without the mark.
pub read-ok :
    (l good : Layer) (r : Resilient)
    → clone_layer l ≡ ok good
    → read (ok l) r ≡ (record { last = record good { stale = none }; failing = false }, l)
unfolding read
read-ok l good r e = rw (e, read) refl
