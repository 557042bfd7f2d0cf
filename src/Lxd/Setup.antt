-- ===== src/Lxd/Setup.antt =====
-- The commands that set a container up, src/lxd/lxd.go.
use kws.Prelude.{Text, codes, List, [], ◌∷◌, ◌++◌, none, some, if◌then◌else◌, ◌==◌}
use kws.World.{
  command_run, no_ip_found, dns_ip, M, ok, err, pure, raise, try, ⊤, ◌>>=◌, ◌>>◌, Services, call,
  command, now,
}

-- `strings.ReplaceAll(configYaml, "\"", "\\\"")`.
pub escape : Text → Text
escape [] = []
escape (c ∷ cs) = let rest = escape cs in if c == b'"' then b'\\' ∷ b'"' ∷ rest else c ∷ rest

-- Lines, each with its end.
abbrev lines : List Text → Text
lines [] = []
lines (l ∷ ls) = l ++ 10 ∷ lines ls

abbrev netplan_yaml : Text → Text
netplan_yaml ip =
    10
    ∷ lines (
        codes "network:"
        ∷ codes "  version: 2"
        ∷ codes "  ethernets:"
        ∷ codes "    eth0:"
        ∷ codes "      dhcp4: true"
        ∷ codes "      nameservers:"
        ∷ (codes "        addresses: [" ++ ip ++ codes "]")
        ∷ [])

abbrev config_yaml : Text → Text
config_yaml password = lines (
    codes "bind-addr: 0.0.0.0:8099"
    ∷ codes "auth: password"
    ∷ (codes "password: " ++ password)
    ∷ codes "cert: false"
    ∷ [])

abbrev config_dir : Text → Text
config_dir user_name = codes "/home/" ++ user_name ++ codes "/.config/code-server"

abbrev bash : Text → List Text
bash line = codes "bash" ∷ codes "-c" ∷ line ∷ []

module _ (s : Services) where
  -- ExecInstance and the wait for it; a command that fails may or may not have been carried out,
  -- and counts as not carried out.
  unfoldable pub run_command : Text → List Text → M s.Memory ⊤
  unfolding call command
  run_command container words = do call s; command s (command_run container words)

  unfoldable pub install_essentials : Text → M s.Memory ⊤
  unfolding run_command
  install_essentials name = do
    run_command name (codes "apt" ∷ codes "update" ∷ [])
    run_command name (
        codes "apt"
        ∷ codes "install"
        ∷ codes "-y"
        ∷ codes "sudo"
        ∷ codes "bash"
        ∷ codes "vim"
        ∷ codes "curl"
        ∷ codes "wget"
        ∷ codes "openssh-server"
        ∷ codes "iproute2"
        ∷ codes "net-tools"
        ∷ codes "ca-certificates"
        ∷ codes "openvswitch-switch"
        ∷ codes "openvswitch-common"
        ∷ [])

  -- Only the last command's error is looked at.
  unfoldable pub create_user : Text → Text → Text → M s.Memory ⊤
  unfolding run_command
  create_user container user_name password = do
    _ ← try (
        run_command container
          (codes "useradd" ∷ codes "-m" ∷ codes "-s" ∷ codes "/bin/bash" ∷ user_name ∷ []))
    _ ← try (
        run_command container
          (bash (codes "echo '" ++ user_name ++ codes ":" ++ password ++ codes "' | chpasswd")))
    run_command container (codes "usermod" ∷ codes "-aG" ∷ codes "sudo" ∷ user_name ∷ [])

  unfoldable pub set_netplan_dns : Text → Text → M s.Memory ⊤
  unfolding run_command
  set_netplan_dns container ip = do
    run_command container
        (bash (codes "echo '" ++ netplan_yaml ip ++ codes "' > /etc/netplan/50-cloud-init.yaml"))
    run_command container (codes "netplan" ∷ codes "apply" ∷ [])

  abbrev password_authentication : Text
  password_authentication = codes "s/^#*PasswordAuthentication.*/PasswordAuthentication yes/"

  -- Only the restart's error is looked at.
  unfoldable pub config_ssh : Text → M s.Memory ⊤
  unfolding run_command
  config_ssh name = do
    _ ← try (
        run_command name (
          codes "sed"
          ∷ codes "-i"
          ∷ codes "s/^#*PermitRootLogin.*/PermitRootLogin no/"
          ∷ codes "/etc/ssh/sshd_config"
          ∷ []))
    _ ← try (
        run_command name
          (codes "sed" ∷ codes "-i" ∷ password_authentication ∷ codes "/etc/ssh/sshd_config" ∷ []))
    _ ← try (
        run_command name (
          codes "sed"
          ∷ codes "-i"
          ∷ password_authentication
          ∷ codes "/etc/ssh/sshd_config.d/60-cloudimg-settings.conf"
          ∷ []))
    run_command name (codes "systemctl" ∷ codes "restart" ∷ codes "sshd" ∷ [])

  unfoldable pub install_code_server : Text → M s.Memory ⊤
  unfolding run_command
  install_code_server name =
      run_command name (bash (codes "curl -fsSL https://code-server.dev/install.sh | sh"))

  unfoldable pub configure_code_server : Text → Text → Text → M s.Memory ⊤
  unfolding run_command escape
  configure_code_server container user_name password = do
    run_command container (codes "mkdir" ∷ codes "-p" ∷ config_dir user_name ∷ [])
    run_command container (
        bash (
          codes "echo \""
          ++ escape (config_yaml password)
          ++ codes "\" > "
          ++ config_dir user_name
          ++ codes "/config.yaml"))
    run_command container (
        codes "chown"
        ∷ codes "-R"
        ∷ (user_name ++ codes ":" ++ user_name)
        ∷ config_dir user_name
        ∷ [])

  unfoldable pub start_code_server : Text → Text → M s.Memory ⊤
  unfolding run_command
  start_code_server container user_name =
      run_command container
        (bash (codes "su - " ++ user_name ++ codes " -c 'nohup code-server > /dev/null 2>&1 &'"))

  -- A failing call gives the empty address and no error.
  unfoldable pub find_container_ip : Text → M s.Memory Text
  unfolding call
  find_container_ip container = do
    n ← now s
    asked ← try (call s)
    elim asked [
      | err e ↦ pure []
      | ok _ ↦ elim (s.container_ip n) [ none ↦ raise no_ip_found | some ip ↦ pure ip ]
    ]

  unfoldable pub set_up_system : Text → Text → Text → M s.Memory ⊤
  unfolding create_user install_essentials set_netplan_dns
  set_up_system container user_name password = do
    create_user container user_name password
    install_essentials container
    set_netplan_dns container dns_ip

  unfoldable pub set_up_server : Text → Text → Text → M s.Memory ⊤
  unfolding install_code_server config_ssh configure_code_server start_code_server
  set_up_server container user_name password = do
    install_code_server container
    config_ssh container
    configure_code_server container user_name password
    start_code_server container user_name

  -- What UpdateInstanceState runs in a container that has no row yet.
  unfoldable pub set_up : Text → Text → Text → M s.Memory ⊤
  unfolding set_up_system set_up_server
  set_up container user_name password = do
    set_up_system container user_name password
    set_up_server container user_name password
