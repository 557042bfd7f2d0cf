-- ===== src/Nginx.antt =====
-- The proxy's configuration: src/internal/nginx/add_template.go, and `ReloadNginxConf` and
-- `ExecAndPrint` of src/internal/docker/docker.go.
use kws.Prelude.{Text, if◌then◌else◌}
use kws.World.{
  Event, conf_written, tunnel_conf_written, conf_removed, nginx_reloaded, exited, M, Result, ok,
  err, pure, raise, try, ⊤, ◌>>=◌, ◌>>◌, Services, call, command, now,
}

pub record Template : Type 0 where
  pub domain : Text
  pub ip : Text
  pub port : Text

-- config.INSTANCE_TEMPLATE and config.DOMAIN_TEMPLATE.
pub data TemplateType : Type 0 where
  instance_template domain_template : TemplateType

-- The file that the template makes, by what is put into it.
abbrev pub written : TemplateType → Template → Event
written instance_template t = conf_written t.domain t.ip t.port
written domain_template t = tunnel_conf_written t.domain

module _ (s : Services) where
  -- os.Create and the template's execution.
  unfoldable pub add_new_conf : TemplateType → Template → M s.Memory ⊤
  unfolding call command
  add_new_conf type t = do call s; command s (written type t)

  -- os.Remove; a file that does not exist is no error.
  unfoldable pub remove_conf : Text → M s.Memory ⊤
  unfolding call command
  remove_conf domain = do
    n ← now s
    if s.conf_missing n then call s >> pure tt else command s (conf_removed domain)

  -- ContainerExecCreate, ContainerExecAttach and the copy of the output.
  exec_reload : M s.Memory ⊤
  unfolding call command
  exec_reload = do call s; command s nginx_reloaded; call s

  abbrev fatal : Result ⊤ → M s.Memory ⊤
  fatal (ok _) = pure tt
  fatal (err e) = raise exited

  -- log.Fatalf ends the process when the reload fails, so no error is ever returned.
  unfoldable pub reload_nginx_conf : M s.Memory ⊤
  unfolding exec_reload
  reload_nginx_conf = do reloaded ← try exec_reload; fatal reloaded
