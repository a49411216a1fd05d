-- ===== src/System/Keeps.antt =====
-- Actions that change the tables only in the ways of Changes, and how they are put together.
use sd_online_auction_backen.Common.{◌≡◌, refl, Bool, true, false}
use sd_online_auction_backen.Redis.{Redis}
use sd_online_auction_backen.Session.{
  World, Exception, Action, raise_if, closing, ◌>>=◌, Result, ok, raised, get_session,
}
use sd_online_auction_backen.Bids.Recording.{unless}
use sd_online_auction_backen.Routers.{catching}
use sd_online_auction_backen.System.Changes.{Changes, unchanged, and_then}

-- an action that changes the tables in those ways when it returns
abbrev pub Keeps : {A : Type 0} → Action A → Type 0
Keeps {A} m = (w : World) (a : A) → (m w).0 ≡ ok a → Changes w.db (m w).1.db

module _ {A : Type 0} where
  pub Keeps-bind :
      {B : Type 0} (m : Action B) (f : B → Action A)
      → Keeps m
      → ((b : B) → Keeps (f b))
      → Keeps (m >>= f)
  Keeps-bind {B} m f first after w a h = by_result (m w) (first w) h
    where
      by_result :
          (x : Result B × World)
          → ((b : B) → x.0 ≡ ok b → Changes w.db x.1.db)
          → (((λ v. x) >>= f) w).0 ≡ ok a
          → Changes w.db (((λ v. x) >>= f) w).1.db
      by_result (ok b, v) first h = and_then (first b refl) (after b v a h)
      by_result (raised x, v) first h = cc h

  -- when it or the commit raises, the session rolls back
  pub get_session-Changes :
      (fails : Bool) (m : Action A)
      → Keeps m
      → (w : World) → Changes w.db (get_session fails m w).1.db
  unfolding get_session
  get_session-Changes fails m keeps w = by_result fails (m w) (keeps w)
    where
      by_result :
          (fails : Bool) (x : Result A × World)
          → ((a : A) → x.0 ≡ ok a → Changes w.db x.1.db)
          → Changes w.db (closing fails w x).1.db
      by_result false (ok a, v) keeps = keeps a refl
      by_result true (ok a, v) keeps = unchanged w.db
      by_result fails (raised x, v) keeps = unchanged w.db

pub unless-Changes : (fails : Bool) (f : Redis → Redis) → Keeps (unless fails f)
unless-Changes true f w a h = unchanged w.db
unless-Changes false f w a h = unchanged w.db

pub raise_if-Changes : (test : Bool) (e : Exception) → Keeps (raise_if test e)
raise_if-Changes test e w a h = unchanged w.db

pub catching-Changes : {A : Type 0} (m : Action A) → Keeps m → Keeps (λ w. catching (m w))
catching-Changes {A} m keeps w a h = by_result (m w) (keeps w a) h
  where
    by_result :
        (x : Result A × World)
        → (x.0 ≡ ok a → Changes w.db x.1.db)
        → (catching x).0 ≡ ok a
        → Changes w.db (catching x).1.db
    by_result (ok b, v) keeps h = keeps h
    by_result (raised e, v) keeps h = cc h
