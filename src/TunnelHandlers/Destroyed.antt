-- ===== src/TunnelHandlers/Destroyed.antt =====
-- What DestroyTunnel leaves behind.
use kws.Prelude.{
  ℕ, ◌≡◌, refl, Bool, true, false, Text, List, [], ◌∷◌, not, ◌==◌, select, All, arith, none,
}
use kws.Prelude.Int.{pos}
use kws.World.{World, TunnelRow, ok, Services, call}
use kws.Tunnels
use kws.Tunnels.{is_tunnel, first_domain}
use kws.TunnelHandlers.{destroy_tunnel}
use kws.Http.{refused, internal_server_error}

-- A serial id is never 0.
abbrev pub IsOwned : TunnelRow → Type 0
IsOwned t = (t.user_id == 0) ≡ false

select-IsOwned :
    (p : TunnelRow → Bool) (ts : List TunnelRow) → All IsOwned ts → All IsOwned (select p ts)
select-IsOwned p [] h = tt
select-IsOwned p (t ∷ ts) h = ground (arith, select-IsOwned p ts)

none_of_zero :
    (name : Text) (ts : List TunnelRow) → All IsOwned ts → select (is_tunnel name 0) ts ≡ []
none_of_zero name [] h = refl
none_of_zero name (t ∷ ts) h = ground (arith, none_of_zero name ts)

module _ (s : Services) where
  -- If every tunnel's row has a user whose id is not 0 and the first call goes through,
  -- DestroyTunnel removes the user's rows of the name, answers 500, and runs no command, so that
  -- the tunnel's conf stays.
  pub destroy_tunnel-Refused :
      (uid : ℕ) (name : Text) (w : World s.Memory)
      → All IsOwned w.tunnels
      → s.fault w.tick ≡ none
      → ((destroy_tunnel s true (pos uid) name w).0 ≡ ok (refused internal_server_error))
        × ((destroy_tunnel s true (pos uid) name w).1.log ≡ w.log)
        × ((destroy_tunnel s true (pos uid) name w).1.tunnels
            ≡ select (λ t. not (is_tunnel name uid t)) w.tunnels)
  unfolding destroy_tunnel Tunnels.destroy_tunnel Tunnels.get_domain_from_tunnel call
  destroy_tunnel-Refused uid name w h calm = grind (
    arith,
    calm,
    none_of_zero name (select (λ t. not (is_tunnel name uid t)) w.tunnels)
        (select-IsOwned (λ t. not (is_tunnel name uid t)) w.tunnels h),
  )
