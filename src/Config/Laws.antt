-- ===== src/Config/Laws.antt =====
-- A listen address is read back from its printed form.
use gbalancer.Prelude.{
  ◌≡◌, ◌≢◌, refl, sym, ap, ◌∙◌, Bool, Bool-cases, inl, inr, if◌then◌else◌, true, false, ◌&&◌, ◌||◌,
  map, List, [], ◌∷◌, ◌++◌, some, arith,
}
use gbalancer.Texts.{Text, bytes, same}
use mathlib.Core.Option.{some-injective}
use gbalancer.Config.{
  Configuration, defaults, load_config, add_listen, cut, ListenAddr, listen_addr, get_listen_addrs,
}

-- no colon stands in a text
abbrev pub NoColon : Text → Type 0
NoColon [] = Unit {0}
NoColon (b ∷ t) = (b ≢ b':') × NoColon t

-- the first separator is the one that was printed
cut-append :
    (net addr : Text)
    → NoColon net
    → cut (bytes "://") (net ++ (bytes "://" ++ addr)) ≡ some (net, addr)
unfolding cut
cut-append [] addr h = refl
cut-append (b ∷ net) addr h = ground (arith, cut-append net addr h.1)

-- the printed form of a listen address
abbrev pub print : ListenAddr → Text
print a = a.net ++ (bytes "://" ++ a.addr)

-- neither is an alias of the default socket
abbrev pub IsPlain : ListenAddr → Type 0
IsPlain a =
    NoColon a.net
    × ((same a.net (bytes "unix") && (same a.addr (bytes "/") || same a.addr (bytes "default")))
        ≡ false)

listen_addr-print : (a : ListenAddr) → IsPlain a → listen_addr (print a) ≡ some a
unfolding listen_addr
listen_addr-print a h = rw (listen_addr, cut-append a.net a.addr h.0, h.1)

abbrev pub AllPlain : List ListenAddr → Type 0
AllPlain [] = Unit {0}
AllPlain (a ∷ rest) = IsPlain a × AllPlain rest

printed : (all : List ListenAddr) → AllPlain all → get_listen_addrs (map print all) ≡ (all, true)
unfolding get_listen_addrs
printed [] h = refl
printed (a ∷ rest) h = rw (listen_addr-print a h.0, get_listen_addrs, printed rest h.1)

map-append : (xs ys : List ListenAddr) → map print (xs ++ ys) ≡ map print xs ++ map print ys
map-append [] ys = refl
map-append (x ∷ xs) ys = ap (λ l. print x ∷ l) (map-append xs ys)

AllPlain-append : (xs ys : List ListenAddr) → AllPlain xs → AllPlain ys → AllPlain (xs ++ ys)
AllPlain-append [] ys h k = k
AllPlain-append (x ∷ xs) ys h k = (h.0, AllPlain-append xs ys h.1 k)

-- the address and the port of a configuration, as a listen address
abbrev pub own : Configuration → ListenAddr
own c = record { net = bytes "tcp"; addr = c.addr ++ (bytes ":" ++ c.port) }

-- The listen entries of a configuration file are of the form net://addr, with a net that holds no colon,
-- and none is an alias of the default socket, which is what "unix:///" and "unix://default" are. Once
-- LoadConfig has decoded the file, GetListenAddrs gives for the configuration exactly those addresses,
-- and then the tcp address of its own address and port if the address is not empty.
pub load_config-get_listen_addrs :
    (decode : Configuration → Configuration × Bool) (c : Configuration) (all : List ListenAddr)
    → AllPlain all
    → (decode defaults).0.listen ≡ map print all
    → load_config (some decode) ≡ some (c, true)
    → get_listen_addrs c.listen ≡ (
      (if same (decode defaults).0.addr [] then all else all ++ own (decode defaults).0 ∷ []),
      true,
    )
unfolding load_config add_listen
load_config-get_listen_addrs decode c all plain listed loaded =
    let d = (decode defaults).0 in
    let listening = add_listen d (bytes "tcp://" ++ (d.addr ++ (bytes ":" ++ d.port))) in
    let same_listen : c.listen ≡ (if same d.addr [] then d else listening).listen =
      ap (λ (x, good). x.listen) (sym (some-injective _ _ loaded)) in
    elim (Bool-cases (same d.addr [])) [
      | inl none_given ↦
          let given : c.listen ≡ map print all =
            same_listen ∙ ap (λ t. (if t then d else listening).listen) none_given ∙ listed in
          rw none_given (ap get_listen_addrs given ∙ printed all plain)
      | inr one_given ↦
          let both : c.listen ≡ map print (all ++ own d ∷ []) =
            same_listen
            ∙ ap (λ t. (if t then d else listening).listen) one_given
            ∙ ap (λ l. l ++ print (own d) ∷ []) listed
            ∙ sym (map-append all (own d ∷ [])) in
          rw one_given (
            ap get_listen_addrs both
            ∙ printed (all ++ own d ∷ [])
                (AllPlain-append all (own d ∷ []) plain ((ground arith, refl), tt)))
    ]
