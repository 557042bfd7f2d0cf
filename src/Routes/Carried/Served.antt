-- ===== src/Routes/Carried/Served.antt =====
-- The router: what each answer carries on.
use kws.Prelude.{ℕ, Bool, true, false, if◌then◌else◌}
use kws.World.{World, M, pure, ⊤, ◌>>=◌, Services, RedisLaws}
use kws.Address.{IpAllocator}
use kws.Auth.Handlers as AuthHandlers
use kws.Auth.Handlers.{Session, is_authorized}
use kws.Http.{Response, refused, redirected, answered}
use kws.Routes.{
  Request, Served, Target, admitted as admitted_by, not_found_code, not_allowed_code, target, found,
  nothing_mounted, file, not_found, not_allowed, protected, tunnel, public, handle, guarded,
  missing, dispatch, serve, file_at,
}
use kws.Routes.Carried.Answers.{Genuine, Good, unchanged, recovered-Good}
use kws.Routes.Carried.Handled.{handle-Good}

module _ (s : Services) (laws : RedisLaws s) (a : IpAllocator) (k : ℕ) where
  guarded-Good :
      (u : Session) (handler : Served s a) (w : World s.Memory)
      → Genuine s k u w
      → Good s k w (handler w)
      → Good s k w (guarded s a u handler w)
  unfolding is_authorized
  guarded-Good u handler w g h = by_session u.is_authorized
    where
      by_session :
          (b : Bool)
          → Good s k w (
              (if◌then◌else◌ {A = M s.Memory (Response ⊤)} b
                    (pure (answered tt))
                    (pure (redirected AuthHandlers.signin))
                  >>= admitted_by s a u handler)
                w)
      by_session true = h
      by_session false = unchanged s k (redirected AuthHandlers.signin) u w g

  missing-Good :
      (u : Session) (b : Bool) (w : World s.Memory)
      → Genuine s k u w
      → Good s k w (missing s a u b w)
  missing-Good u true w g = unchanged s k (refused not_allowed_code) u w g
  missing-Good u false w g = unchanged s k (refused not_found_code) u w g

  dispatch-Good :
      (t : Target) (r : Request) (u : Session) (w : World s.Memory)
      → Genuine s k u w
      → Good s k w (dispatch s a t r u w)
  unfolding dispatch
  dispatch-Good (found protected route) r u w g =
      guarded-Good u (handle s a route r u) w g (handle-Good s laws a k route r u w g)
  dispatch-Good (found tunnel route) r u w g = handle-Good s laws a k route r u w g
  dispatch-Good (found public route) r u w g = handle-Good s laws a k route r u w g
  dispatch-Good (nothing_mounted b) r u w g =
      guarded-Good u (missing s a u b) w g (missing-Good u b w g)
  dispatch-Good file r u w g = unchanged s k (answered (file_at r.path)) u w g
  dispatch-Good not_found r u w g = missing-Good u false w g
  dispatch-Good not_allowed r u w g = missing-Good u true w g

  pub serve-Good :
      (r : Request) (u : Session) (w : World s.Memory)
      → Genuine s k u w
      → Good s k w (serve s a r u w)
  unfolding serve
  serve-Good r u w g =
      recovered-Good s k a u w (dispatch s a (target r.method r.path) r u w) g
        (dispatch-Good (target r.method r.path) r u w g)
