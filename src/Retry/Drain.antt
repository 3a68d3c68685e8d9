-- ===== src/Retry/Drain.antt =====
-- When a cursor scan goes past a page that submitted nothing.
use wallet_daemon.Base.{
  ℕ, ◌<◌, ◌≡◌, refl, ◌≢◌, ◌↔◌, true, Option, none, some, [], ◌∷◌, Text, option_text_beq_iff, arith,
}
use wallet_daemon.Retry.{should_continue_empty_drain, max_consecutive_empty_pages}

-- What a drain past a page that submitted nothing needs.
pub record MayDrain (cursor next_cursor : Option Text) (empty_pages : ℕ) : Type 0 where
  pub next : Text
  pub offered : next_cursor ≡ some next
  pub moved : cursor ≢ some next
  pub nonempty : next ≢ []
  pub below_limit : empty_pages < max_consecutive_empty_pages

pub should_continue_empty_drain→MayDrain :
    (cursor next_cursor : Option Text) (empty_pages : ℕ)
    → should_continue_empty_drain cursor next_cursor empty_pages ≡ true
    → MayDrain cursor next_cursor empty_pages
unfolding should_continue_empty_drain
should_continue_empty_drain→MayDrain cursor none n h = ground arith
should_continue_empty_drain→MayDrain cursor (some []) n h = ground arith
should_continue_empty_drain→MayDrain cursor (some (c ∷ s)) n h = record {
  next = c ∷ s;
  offered = refl;
  moved = λ e. ground (arith, option_text_beq_iff (some (c ∷ s)) cursor);
  nonempty = λ e. cc;
  below_limit = ground arith;
}

MayDrain→should_continue_empty_drain :
    (cursor next_cursor : Option Text) (empty_pages : ℕ)
    → MayDrain cursor next_cursor empty_pages
    → should_continue_empty_drain cursor next_cursor empty_pages ≡ true
unfolding should_continue_empty_drain
MayDrain→should_continue_empty_drain cursor none n d = ground (arith, d.offered)
MayDrain→should_continue_empty_drain cursor (some []) n d =
    absurd (d.nonempty (ground (arith, d.offered)))
MayDrain→should_continue_empty_drain cursor (some (c ∷ s)) n d =
    let same : d.next ≡ c ∷ s = ground (arith, d.offered) in
    let moved : cursor ≢ some (c ∷ s) = rw same at d.moved in
    ground (arith, option_text_beq_iff (some (c ∷ s)) cursor, d.below_limit)

-- A drain past an unproductive page goes on exactly when the server offered a cursor that is not
-- empty and differs from the current one, and fewer than 20 such pages have been passed.
pub should_continue_empty_drain_iff :
    (cursor next_cursor : Option Text) (empty_pages : ℕ)
    → (should_continue_empty_drain cursor next_cursor empty_pages ≡ true)
      ↔ MayDrain cursor next_cursor empty_pages
should_continue_empty_drain_iff cursor next_cursor n = (
  should_continue_empty_drain→MayDrain cursor next_cursor n,
  MayDrain→should_continue_empty_drain cursor next_cursor n,
)
