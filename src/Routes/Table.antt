-- ===== src/Routes/Table.antt =====
-- The table of routes, src/cmd/routes.go: which handler and which middleware a method and a path
-- find.
use kws.Prelude.{
  Bool, true, false, Text, text_eq, codes, List, [], ◌∷◌, ◌++◌, Option, none, some, ◌==◌,
  if◌then◌else◌,
}

-- A method that chi does not know is `unknown`; `other` is any that it knows and no route has.
pub data Method : Type 0 where
  get post other unknown : Method

abbrev pub same_method : Method → Method → Bool
same_method get get = true
same_method post post = true
same_method other other = true
same_method unknown unknown = true
same_method _ _ = false

-- The handlers, by their names.
pub data Route : Type 0 where
  create_tunnel destroy_tunnel : Route
  log_out_user deploy stop_instance delete_instance register_device remove_device : Route
  create_pg_user create_pg_database remove_pg_user remove_pg_database : Route
  render_devices_page is_online deploy_result stop_result kill_result : Route
  add_user_domain remove_user_domain : Route
  render_services_page render_pg_users_page render_pg_databases_page : Route
  render_instance_page render_publish_page home_handler : Route
  create_user verify_user login_user : Route
  render_register_page render_sign_in_page login_tunnel_user : Route

-- By its middleware: IsTunnelUserAuthorized, IsAuthorized, or none.
pub data Group : Type 0 where
  tunnel protected public : Group

pub record Entry : Type 0 where
  pub method : Method
  pub path : Text
  pub route : Route
  pub group : Group

pub data Target : Type 0 where
  found : Group → Route → Target
  -- A path below a mounted router's, whose middleware stands in front of the answer 404 or 405.
  nothing_mounted : Bool → Target
  file : Target
  not_found not_allowed : Target

abbrev entry : Group → Method → Text → Route → Entry
entry group method path route = record {
  method = method;
  path = path;
  route = route;
  group = group;
}

abbrev pub tunnel_table : List Entry
tunnel_table =
    entry tunnel post (codes "/create_tunnel") create_tunnel
    ∷ entry tunnel post (codes "/destroy_tunnel") destroy_tunnel
    ∷ []

abbrev pub protected_table : List Entry
protected_table =
    entry protected get (codes "/logout") log_out_user
    ∷ entry protected post (codes "/deploy") deploy
    ∷ entry protected get (codes "/stop") stop_instance
    ∷ entry protected get (codes "/kill") delete_instance
    ∷ entry protected post (codes "/register") register_device
    ∷ entry protected post (codes "/remove") remove_device
    ∷ entry protected post (codes "/createpguser") create_pg_user
    ∷ entry protected post (codes "/createpgdb") create_pg_database
    ∷ entry protected post (codes "/deletepguser") remove_pg_user
    ∷ entry protected post (codes "/deletepgdb") remove_pg_database
    ∷ entry protected get (codes "/kws_devices") render_devices_page
    ∷ entry protected post (codes "/active") is_online
    ∷ entry protected post (codes "/deployresult") deploy_result
    ∷ entry protected post (codes "/stopresult") stop_result
    ∷ entry protected post (codes "/killresut") kill_result
    ∷ entry protected post (codes "/adddomain") add_user_domain
    ∷ entry protected post (codes "/removedomain") remove_user_domain
    ∷ entry protected get (codes "/kws_instances") render_instance_page
    ∷ entry protected get (codes "/kws_publish") render_publish_page
    ∷ entry protected get (codes "/") home_handler
    ∷ []

-- Below /kws_services.
abbrev pub services_table : List Entry
services_table =
    entry protected get (codes "/") render_services_page
    ∷ entry protected get (codes "/postgres/users") render_pg_users_page
    ∷ entry protected get (codes "/postgres/db") render_pg_databases_page
    ∷ []

abbrev pub public_table : List Entry
public_table =
    entry public post (codes "/create_user") create_user
    ∷ entry public get (codes "/verify") verify_user
    ∷ entry public post (codes "/login") login_user
    ∷ entry public get (codes "/kws_register") render_register_page
    ∷ entry public get (codes "/kws_signin") render_sign_in_page
    ∷ entry public post (codes "/tunnel_login") login_tunnel_user
    ∷ []

-- The path without a prefix, if it has it.
abbrev pub strip_prefix : Text → Text → Option Text
strip_prefix [] path = some path
strip_prefix (c ∷ cs) [] = none
strip_prefix (c ∷ cs) (d ∷ path) = let rest = strip_prefix cs path in if c == d then rest else none

-- The handler; 405 if only another method has the path, and 404 if none has.
unfoldable pub find : Method → Text → List Entry → Target
find method path [] = not_found
find method path (e ∷ es) =
    let rest = find method path es in
    if text_eq e.path path
    then (if same_method e.method method then found e.group e.route else not_allowed)
    else rest

abbrev pub behind : Target → Target
behind not_found = nothing_mounted false
behind not_allowed = nothing_mounted true
behind t = t

abbrev pub is_slash_or_end : Text → Bool
is_slash_or_end [] = true
is_slash_or_end (c ∷ cs) = c == b'/'

abbrev pub or_root : Text → Text
or_root [] = codes "/"
or_root (c ∷ cs) = c ∷ cs

abbrev pub is_file : Text → Bool
is_file path = elim (strip_prefix (codes "/js/") path) [
  | some rest ↦ true
  | none ↦ elim (strip_prefix (codes "/css/") path) [ some rest ↦ true | none ↦ false ]
]

-- The part of the path below /kws_services, if it is there.
abbrev pub mounted : Text → Option Text
mounted path = elim (strip_prefix (codes "/kws_services") path) [
  | none ↦ none
  | some rest ↦ if is_slash_or_end rest then some (or_root rest) else none
]

-- No path has two methods, so that the first entry of a path is its only one.
unfoldable pub find_route : Method → Text → Target
unfolding find
find_route method path = elim (mounted path) [
  | some rest ↦ behind (find method rest services_table)
  | none ↦
      if is_file path
      then file
      else find method path (tunnel_table ++ (protected_table ++ public_table))
]

-- `NewRouter`. chi answers a method that it does not know before it looks at the path.
unfoldable pub target : Method → Text → Target
unfolding find_route
target unknown path = not_allowed
target get path = find_route get path
target post path = find_route post path
target other path = find_route other path
