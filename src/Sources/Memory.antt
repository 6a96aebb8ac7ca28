-- ===== src/Sources/Memory.antt =====
-- `Memory` of sources.go.
use xconf.Prelude.{
  ℕ, ◌+◌, ◌%◌, ◌^◌, ◌≡◌, refl, ap, ◌∙◌, ◌≢◌, inl, inr, Option, none, some, List, [], ◌∷◌,
  Bool-cases, arith, ◌==◌, if◌then◌else◌,
}
use xconf.Text.{str_eq}
use xconf.Text.Laws.{str_eq_iff}
use xconf.Text.Decimal.{itoa}
use xconf.Error.{Error, Result, ok, err, ◌>>=◌}
use xconf.Layer.{Layer}
use xconf.Layer.Clone.{clone_layer}
use xconf.Layer.Clone.Laws.{IsCopied, clone_layer-IsCopied, clone_layer-copied}

-- The watchers are the numbers under which their callbacks are registered.
pub record Memory : Type 0 where
  pub layer : Layer
  pub revision : ℕ
  pub watchers : List ℕ
  pub next : ℕ

-- A layer without a revision of its own gets the number of the change.
unfoldable pub number_layer : ℕ → Layer → Layer
unfolding itoa
number_layer n l = if str_eq l.revision [] then record l { revision = itoa n } else l

-- Memory.Set: the new state, and the watchers that are notified. An error leaves the state.
unfoldable pub set : Layer → Memory → Result (Memory × List ℕ)
unfolding clone_layer number_layer
set given m = do
  l ← clone_layer given
  let n = (m.revision + 1) % 2 ^ 64
  ok (record m { layer = number_layer n l; revision = n }, m.watchers)

-- Memory.Read, where `gone` is the error of the context, if it has one.
unfoldable pub read : Option Error → Memory → Result Layer
unfolding clone_layer
read (some e) m = err e
read none m = clone_layer m.layer

-- Memory.Watch, and the stop function that it returns. The counter is an int, by its bit
-- pattern.
unfoldable pub watch : Memory → Memory × ℕ
watch m = (record m { watchers = m.next ∷ m.watchers; next = (m.next + 1) % 2 ^ 64 }, m.next)

unfoldable pub remove_watcher : ℕ → List ℕ → List ℕ
remove_watcher n [] = []
remove_watcher n (w ∷ ws) = let rest = remove_watcher n ws in if w == n then rest else w ∷ rest

unfoldable pub unwatch : ℕ → Memory → Memory
unfolding remove_watcher
unwatch n m = record m { watchers = remove_watcher n m.watchers }

number_layer-IsCopied : (n : ℕ) (l : Layer) → IsCopied l → IsCopied (number_layer n l)
unfolding number_layer
number_layer-IsCopied n l c = elim (Bool-cases (str_eq l.revision [])) [
  | inl unnumbered ↦ rw unnumbered c
  | inr own ↦ rw own c
]

copied : (given copy : Layer) → clone_layer given ≡ ok copy → IsCopied copy
copied given copy e = (rw e at (clone_layer-IsCopied given)).0

number_layer-own :
    (n : ℕ) (l : Layer)
    → (l.revision ≡ [] → number_layer n l ≡ record l { revision = itoa n })
      × (l.revision ≢ [] → number_layer n l ≡ l)
unfolding number_layer str_eq
number_layer-own n l = (λ e. rw e refl, λ h. ground (arith, str_eq_iff l.revision []))

-- A Set of a layer that can be cloned succeeds. After it, every Read returns the copied layer,
-- under its own revision or, if it has none, under the number of the change; and the callbacks
-- registered at that moment are called.
pub read-set :
    (given : Layer) (m : Memory) (copy : Layer)
    → clone_layer given ≡ ok copy
    → (after : Memory) × (set given m ≡ ok (after, m.watchers))
      × (copy.revision ≢ [] → read none after ≡ ok copy)
      × (copy.revision ≡ []
          → read none after ≡ ok (record copy { revision = itoa ((m.revision + 1) % 2 ^ 64) }))
unfolding set read
read-set given m copy e =
    let n = (m.revision + 1) % 2 ^ 64 in
    let kept =
      clone_layer-copied (number_layer n copy)
        (number_layer-IsCopied n copy (copied given copy e)) in
    (
      record m { layer = number_layer n copy; revision = n },
      rw e refl,
      λ h. kept ∙ ap ok ((number_layer-own n copy).1 h),
      λ h. kept ∙ ap ok ((number_layer-own n copy).0 h),
    )
