-- ===== src/Config.antt =====
-- config/config.go and config/listen.go: the configuration and its listen addresses. Texts are
-- lists of bytes.
pub mod Laws
use gbalancer.Prelude.{
  ℕ, Bool, true, false, ◌&&◌, ◌||◌, List, [], ◌∷◌, ◌++◌, Option, none, some, ◌==◌, if◌then◌else◌,
}
use gbalancer.Texts.{Text, bytes, same}

-- what follows a prefix
abbrev pub after : Text → Text → Option Text
after [] t = some t
after (a ∷ p) [] = none
after (a ∷ p) (b ∷ t) = if a == b then after p t else none

-- strings.SplitN(t, sep, 2): the parts around the first separator, or `none` for a single part
unfoldable pub cut : Text → Text → Option (Text × Text)
cut sep [] = none
cut sep (b ∷ t) = elim (after sep (b ∷ t)) [
  | some rest ↦ some ([], rest)
  | none ↦ elim (cut sep t) [ none ↦ none | some (l, r) ↦ some (b ∷ l, r) ]
]

abbrev pub default_unix_socket : Text
default_unix_socket = bytes "/var/lib/mysql/mysql.sock"

pub record ListenAddr : Type 0 where
  pub net : Text
  pub addr : Text

pub record Configuration : Type 0 where
  pub service : Text
  pub ext_command : Text
  pub user : Text
  pub pass : Text
  pub addr : Text
  pub port : Text
  pub listen : List Text
  pub backend : List Text

unfoldable pub add_listen : Configuration → Text → Configuration
add_listen c l = record c { listen = c.listen ++ l ∷ [] }

-- Listen, over net.Listen
unfoldable pub listen {ℓ} : {A : Type ℓ} → (Text → Text → A) → ListenAddr → A
listen net_listen l = net_listen l.net l.addr

-- %v of a slice of strings, without its brackets
abbrev pub spaced : List Text → Text
spaced [] = []
spaced (a ∷ []) = a
spaced (a ∷ b ∷ rest) = a ++ (bytes " " ++ spaced (b ∷ rest))

-- ListenInfo
unfoldable pub listen_info : Configuration → Text
listen_info c =
    bytes "Listen on ["
    ++ (spaced c.listen ++ (bytes "], backend: [" ++ (spaced c.backend ++ bytes "]")))

-- what LoadConfig hands to the decoder
abbrev pub defaults : Configuration
defaults = record {
  service = bytes "galera";
  ext_command = [];
  user = [];
  pass = [];
  addr = bytes "127.0.0.1";
  port = bytes "3306";
  listen = [];
  backend = [];
}

-- LoadConfig: the file is opened and decoded over the defaults by `decode`, which returns the
-- configuration and whether it succeeded; `none` is an error of os.Open.
unfoldable pub load_config :
    Option (Configuration → Configuration × Bool) → Option (Configuration × Bool)
unfolding add_listen
load_config none = none
load_config (some decode) =
    let (c, good) = decode defaults in
    let listening = add_listen c (bytes "tcp://" ++ (c.addr ++ (bytes ":" ++ c.port))) in
    some (if same c.addr [] then c else listening, good)

-- one round of GetListenAddrs
unfoldable pub listen_addr : Text → Option ListenAddr
listen_addr l = elim (cut (bytes "://") l) [
  | none ↦ none
  | some (net, laddr) ↦
      let short = same laddr (bytes "/") || same laddr (bytes "default") in
      some (record {
        net = net;
        addr = if same net (bytes "unix") && short then default_unix_socket else laddr;
      })
]

-- GetListenAddrs: the addresses up to the first incorrect one, and whether all are correct
unfoldable pub get_listen_addrs : List Text → List ListenAddr × Bool
unfolding listen_addr
get_listen_addrs [] = ([], true)
get_listen_addrs (l ∷ ls) = elim (listen_addr l) [
  | none ↦ ([], false)
  | some a ↦ let (rest, good) = get_listen_addrs ls in (a ∷ rest, good)
]

-- CheckFile: `stat` says whether os.Stat succeeds
unfoldable pub check_file : (Text → Bool) → Text → Bool
check_file stat [] = false
check_file stat (b ∷ cfg) = b == b'/' && stat (b ∷ cfg)
