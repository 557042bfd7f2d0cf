-- ===== src/Publish.antt =====
-- The handlers that publish a user's domain, src/cmd/domain_handler.go.
use kws.Prelude.{ℕ, Text, codes, Option, none, some}
use kws.Prelude.Int.{ℤ}
use kws.World.{M, Result, ok, err, pure, attempt, ⊤, ◌>>=◌, Services}
use kws.Address.{generate_ip_lxc}
use kws.Instances.{get_ip_from_uid}
use kws.Domains
use kws.Nginx.{instance_template, add_new_conf, remove_conf, reload_nginx_conf}
use kws.Http.{Response, refused, answered, bad_request, internal_server_error}

pub record DomainResponse : Type 0 where
  pub domain : Text
  pub port : Text
  pub status : Text

module _ (s : Services) where
  -- Go's `if err != nil { http.Error(w, ..., 500); return }`.
  abbrev or_fail : {A : Type 0} → Result ⊤ → M s.Memory (Response A) → M s.Memory (Response A)
  or_fail (ok _) go = go
  or_fail (err e) go = pure (refused internal_server_error)

  -- A form that does not parse is answered with 400 first, and worked on all the same.
  -- The number that strconv.Atoi reads of the port's text, if it is one. The query for the
  -- address never fails.
  unfoldable pub add_user_domain : ℕ → Text → Text → Option ℤ → M s.Memory (Response DomainResponse)
  add_user_domain uid domain port_text none = pure (refused bad_request)
  add_user_domain uid domain port_text (some port) = do
    added ← attempt (Domains.add_user_domain s uid domain port)
    or_fail added do
      ip ← get_ip_from_uid s uid
      written ← attempt (
          add_new_conf s instance_template
            (record { domain = domain; ip = generate_ip_lxc ip; port = port_text }))
      or_fail written do
        reloaded ← attempt (reload_nginx_conf s)
        or_fail reloaded (
            pure (answered (record { domain = domain; port = port_text; status = codes "Active" })))

  unfoldable pub remove_user_domain : ℕ → Text → M s.Memory (Response ⊤)
  remove_user_domain uid domain = do
    removed ← attempt (Domains.remove_domain s uid domain)
    or_fail removed do
      gone ← attempt (remove_conf s domain)
      or_fail gone
          do reloaded ← attempt (reload_nginx_conf s); or_fail reloaded (pure (answered tt))
