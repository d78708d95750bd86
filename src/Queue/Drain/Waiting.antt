-- ===== src/Queue/Drain/Waiting.antt =====
-- How many batches wait in the rings of a queue of crates/core/src/evqueue.rs.
use trace.Prelude.{ℕ}
use trace.Queue.Drain.Order.{Drains, over, front, Cleared}
use trace.Prelude.{
  List, [], ap, arith, get_elem?, length, length-append, refl, set, some, some-injective, suc,
  sum_of, zero, ◌+◌, ◌∙◌, ◌∷◌, ◌≡◌,
}
use trace.Spsc.{Spsc}
use trace.Batch.{EventBatch}
use trace.Prelude.{append_assoc, subst, sym, ◌++◌}

module _ (R : Spsc EventBatch) where
  open R use {Chan, contents}

  -- The batches that wait in the rings.
  abbrev pub waiting : List Chan → ℕ
  waiting cs = sum_of (λ c. length (contents c)) cs

  waiting-set :
      (cs : List Chan) (index : ℕ) (c d : Chan)
      → get_elem? cs index ≡ some c
      → waiting (set cs index d) + length (contents c) ≡ waiting cs + length (contents d)
  waiting-set [] index c d e = cc
  waiting-set (b ∷ cs) zero c d e = let q : b ≡ c = some-injective _ _ e in rw q (omega arith)
  waiting-set (b ∷ cs) (suc index) c d e = omega (arith, waiting-set cs index c d e)

  pub waiting-Drains :
      {cs ds : List Chan} {taken : List EventBatch}
      → Drains R cs taken ds
      → waiting cs ≡ length taken + waiting ds
  waiting-Drains over = omega arith
  waiting-Drains (front {cs} {ds} {more} index c d taken found all run) =
      let size : length (contents c) ≡ length taken + length (contents d) =
        ap length all ∙ length-append taken (contents d) in
      omega
        (arith, size, waiting-set cs index c d found, waiting-Drains run, length-append taken more)

  pub waiting-Cleared : (cs : List Chan) → ((index : ℕ) → Cleared R cs index) → waiting cs ≡ 0
  waiting-Cleared [] h = refl
  waiting-Cleared (c ∷ cs) h =
      let first : length (contents c) ≡ 0 = ap length (h 0 c refl) in
      let rest : waiting cs ≡ 0 = waiting-Cleared cs (λ index. h (suc index)) in
      omega (arith, first, rest)

  -- One drain behind another.
  pub Drains-append :
      {cs ds es : List Chan} {taken more : List EventBatch}
      → Drains R cs taken ds
      → Drains R ds more es
      → Drains R cs (taken ++ more) es
  Drains-append over run = run
  Drains-append {cs} {ds} {es} (front {more = rest} index c d taken found all first) run =
      subst (λ ts. Drains R cs ts es) (sym (append_assoc taken rest _))
        (front index c d taken found all (Drains-append first run))
