-- ===== src/Extract/Banmask.antt =====
-- getBanmask of src/extract.c on the netmasks `nick!user@host` of the protocol.
use ebotula.Prelude.{
  ℕ, ◌+◌, ◌≤◌, ◌<◌, ◌≡◌, ap, ◌∙◌, true, false, [], ◌∷◌, ◌++◌, Option, none, some, arith, ◌==◌, leb,
  length, length-append, append-nil, append_assoc,
}
use ebotula.CString.{Bytes, strchr, take_until}
use ebotula.CString.Laws.{lacks, take_until-append, strchr-append, strchr-here, strtok_cut-fix}
use ebotula.CString.Outcome.{done, fault}
use ebotula.Extract.{netmask_of, get_netmask, append_dot, append_host, banmask_of, get_banmask}

abbrev pub mask : ℕ → Bytes → Bytes → Bytes → Bytes
mask c nick user host = c ∷ (nick ++ (b'!' ∷ (user ++ (b'@' ∷ host))))

-- The parts of a netmask `nick!user@host`, whose nick begins with `c`.
pub record IsMask (c : ℕ) (nick user host : Bytes) : Type 0 where
  pub colon : (c == b':') ≡ false
  pub bang : lacks b'!' (c ∷ nick) ≡ true
  pub at : lacks b'@' user ≡ true
  pub space : lacks b' ' (nick ++ (b'!' ∷ (user ++ (b'@' ∷ host)))) ≡ true

abbrev or_nil : Option Bytes → Bytes
or_nil none = []
or_nil (some s) = s

-- from the first dot on
abbrev pub from_dot : Bytes → Bytes
from_dot s = or_nil (strchr b'.' s)

length-from_dot : (s : Bytes) → length (from_dot s) ≤ length s
unfolding strchr
length-from_dot [] = omega arith
length-from_dot (x ∷ s) = ground (arith, length-from_dot s)

module _ {c : ℕ} {nick user host : Bytes} (m : IsMask c nick user host) where
  strchr-mask : strchr b'!' (mask c nick user host) ≡ some (b'!' ∷ (user ++ (b'@' ∷ host)))
  strchr-mask =
      strchr-append b'!' (c ∷ nick) (b'!' ∷ (user ++ (b'@' ∷ host))) m.bang
      ∙ strchr-here b'!' (user ++ (b'@' ∷ host))

  pub get_netmask-mask :
      get_netmask (some (mask c nick user host)) ≡ done (some (mask c nick user host))
  unfolding get_netmask netmask_of
  get_netmask-mask =
      rw (strtok_cut-fix b' ' (nick ++ (b'!' ∷ (user ++ (b'@' ∷ host)))) m.space)
        (rw strchr-mask (rw m.colon))

  star_at : strchr b'@' (b'*' ∷ b'!' ∷ (user ++ (b'@' ∷ host))) ≡ some (b'@' ∷ host)
  star_at = strchr-append b'@' (b'*' ∷ b'!' ∷ user) (b'@' ∷ host) m.at ∙ strchr-here b'@' host

  star_cut :
      take_until (λ x. x == b'@') (b'*' ∷ b'!' ∷ (user ++ (b'@' ∷ host))) ≡ b'*' ∷ b'!' ∷ user
  star_cut = take_until-append b'@' (b'*' ∷ b'!' ∷ user) host m.at

  room : (length (b'!' ∷ (user ++ (b'@' ∷ host))) + 2) ≤ (length (mask c nick user host) + 1)
  room = omega (arith, length-append nick (b'!' ∷ (user ++ (b'@' ∷ host))))

  banmask_of-append_host :
      (k : ℕ)
      → length (b'!' ∷ (user ++ (b'@' ∷ host))) + 2 ≤ k
      → banmask_of k (mask c nick user host)
        ≡ append_host
            (length (b'!' ∷ (user ++ (b'@' ∷ host))) + 3)
            (b'*' ∷ b'!' ∷ (user ++ (b'@' ∷ host)))
  unfolding banmask_of
  banmask_of-append_host k h =
      let fits : leb (length (b'!' ∷ (user ++ (b'@' ∷ host))) + 2) k ≡ true = ground arith in
      rw (strchr-mask, banmask_of) (rw fits)

  get_banmask-append_host :
      get_banmask (some (mask c nick user host))
      ≡ append_host
          (length (b'!' ∷ (user ++ (b'@' ∷ host))) + 3)
          (b'*' ∷ b'!' ∷ (user ++ (b'@' ∷ host)))
  unfolding get_banmask
  get_banmask-append_host =
      rw (get_netmask-mask, m.colon)
        (banmask_of-append_host (length (mask c nick user host) + 1) room)

-- the search for the dot starts at the `*`
star_dot :
    (user host : Bytes)
    → lacks b'.' user ≡ true
    → strchr b'.' (b'*' ∷ b'!' ∷ (user ++ (b'@' ∷ host))) ≡ strchr b'.' host
unfolding strchr
star_dot user host h = strchr-append b'.' (b'*' ∷ b'!' ∷ user) (b'@' ∷ host) h

module _ {c : ℕ} {nick user host : Bytes} (m : IsMask c nick user host) where
  -- the allocation of pBanmask
  abbrev size : ℕ
  size = length (b'!' ∷ (user ++ (b'@' ∷ host))) + 3

  get_banmask-append_dot :
      get_banmask (some (mask c nick user host))
      ≡ append_dot size
          ((b'*' ∷ b'!' ∷ user) ++ (b'@' ∷ b'*' ∷ []))
          (strchr b'.' (b'*' ∷ b'!' ∷ (user ++ (b'@' ∷ host))))
  unfolding append_host
  get_banmask-append_dot =
      get_banmask-append_host m
      ∙ rw (star_at m, append_host)
          (ap
            (λ cut.
              append_dot size (cut ++ (b'@' ∷ b'*' ∷ []))
                (strchr b'.' (b'*' ∷ b'!' ∷ (user ++ (b'@' ∷ host)))))
            (star_cut m))

append_dot-fits :
    (k : ℕ) (cut : Bytes) (found : Option Bytes)
    → length cut + length (or_nil found) + 1 ≤ k
    → append_dot k cut found ≡ done (some (cut ++ or_nil found))
unfolding append_dot
append_dot-fits k cut none h = rw append-nil
append_dot-fits k cut (some dot) h = ground arith

append_dot-overflow :
    (k : ℕ) (cut dot : Bytes)
    → k < length cut + length dot + 1
    → append_dot k cut (some dot) ≡ fault
unfolding append_dot
append_dot-overflow k cut dot h = ground arith

-- For a netmask `nick!user@host` whose user name has no dot, the ban mask is `*!user@*` and the
-- host from its first dot on: nothing is written behind an allocation.
pub get_banmask_lem :
    {c : ℕ} {nick user host : Bytes}
    → IsMask c nick user host
    → lacks b'.' user ≡ true
    → get_banmask (some (mask c nick user host))
      ≡ done (some (b'*' ∷ b'!' ∷ (user ++ (b'@' ∷ b'*' ∷ from_dot host))))
get_banmask_lem {user} {host} m plain =
    get_banmask-append_dot m
    ∙ rw (star_dot user host plain) (
        append_dot-fits (size m) ((b'*' ∷ b'!' ∷ user) ++ (b'@' ∷ b'*' ∷ [])) (strchr b'.' host) (
          omega (
            arith,
            length-append user (b'@' ∷ b'*' ∷ []),
            length-append user (b'@' ∷ host),
            length-from_dot host,
          ))
        ∙ rw append_assoc)

-- If the user name has a dot, the mask is built by copying the netmask from that dot on behind
-- `*!user@*`, which always leaves the allocation of the ban mask.
pub get_banmask-overflow :
    {c : ℕ} {nick host : Bytes} (u v : Bytes)
    → IsMask c nick (u ++ (b'.' ∷ v)) host
    → lacks b'.' u ≡ true
    → get_banmask (some (mask c nick (u ++ (b'.' ∷ v)) host)) ≡ fault
get_banmask-overflow {host} u v m plain =
    let found : strchr b'.' (b'*' ∷ b'!' ∷ ((u ++ (b'.' ∷ v)) ++ (b'@' ∷ host)))
        ≡ some (b'.' ∷ (v ++ (b'@' ∷ host))) =
      rw (append_assoc u (b'.' ∷ v) (b'@' ∷ host)) (
        strchr-append b'.' (b'*' ∷ b'!' ∷ u) (b'.' ∷ (v ++ (b'@' ∷ host))) (ground arith)
        ∙ strchr-here b'.' (v ++ (b'@' ∷ host))) in
    get_banmask-append_dot m
    ∙ rw found (
        append_dot-overflow (size m) ((b'*' ∷ b'!' ∷ (u ++ (b'.' ∷ v))) ++ (b'@' ∷ b'*' ∷ []))
          (b'.' ∷ (v ++ (b'@' ∷ host)))
          (omega (
            arith,
            length-append (u ++ (b'.' ∷ v)) (b'@' ∷ b'*' ∷ []),
            length-append (u ++ (b'.' ∷ v)) (b'@' ∷ host),
            length-append v (b'@' ∷ host),
          )))
