-- ===== src/NcServer/Bounds.antt =====
-- The caps on connections, over every interleaving of connections.
use sui_ctf_infrastructure.Base.{
  length, Member, pos, pos_part, ◌+ℤ◌, leb_ℤ, ◌≤◌, ◌≡◌, refl, sym, subst, false, ◌||◌, none, some,
  List, [], ◌∷◌, arith,
}
use sui_ctf_infrastructure.Text.{Text, before}
use sui_ctf_infrastructure.Counters.{
  lookup, get_or, count, close_one, count-close_one, length-close_one, Tracks, enter, enter-Tracks,
  leave-Tracks,
}
use sui_ctf_infrastructure.NcServer.Connections.{Caps, NcState, no_connections, accept, disconnect}

-- The counters with the addresses of the connections that are open.
pub record Open : Type 0 where
  pub nc : NcState
  pub peers : List Text

-- A connection is turned away, is taken, or ends; in any order.
pub data Step (caps : Caps) (s t : Open) : Type 0 where
  reject : (ip : Text) → accept caps ip s.nc ≡ none → t ≡ s → Step caps s t
  connect :
      (ip : Text) (n : NcState)
      → accept caps ip s.nc ≡ some n
      → t ≡ record { nc = n; peers = ip ∷ s.peers }
      → Step caps s t
  close :
      (ip : Text)
      → Member ip s.peers
      → t ≡ record { nc = disconnect ip s.nc; peers = close_one ip s.peers }
      → Step caps s t

pub data Steps (caps : Caps) : Open → Type 0 where
  listening : Steps caps (record { nc = no_connections; peers = [] })
  step : {s t : Open} → Steps caps s → Step caps s t → Steps caps t

-- The counters tell what is open, and both caps hold.
pub record IsCapped (caps : Caps) (s : Open) : Type 0 where
  pub total : s.nc.active ≡ pos (length s.peers)
  pub per : Tracks s.peers s.nc.per_ip
  pub below_total : length s.peers ≤ pos_part caps.max_conn
  pub below_per : (k : Text) → count k s.peers ≤ pos_part caps.max_conn_per_ip

-- What an accepted connection has met.
pub accept-some :
    (caps : Caps) (ip : Text) (n m : NcState)
    → accept caps ip n ≡ some m
    → ((leb_ℤ caps.max_conn n.active || leb_ℤ caps.max_conn_per_ip (get_or ip (pos 0) n.per_ip))
        ≡ false)
      × (m ≡ record { active = n.active +ℤ pos 1; per_ip = enter ip n.per_ip })
unfolding accept
accept-some caps ip n m e = ground arith

connect-IsCapped :
    (caps : Caps) (ip : Text) (s : Open)
    → (leb_ℤ caps.max_conn s.nc.active
        || leb_ℤ caps.max_conn_per_ip (get_or ip (pos 0) s.nc.per_ip))
      ≡ false
    → IsCapped caps s
    → IsCapped caps (record {
      nc = record { active = s.nc.active +ℤ pos 1; per_ip = enter ip s.nc.per_ip };
      peers = ip ∷ s.peers;
    })
unfolding ◌+ℤ◌
connect-IsCapped caps ip s room v = record {
  total = ground (arith, v.total);
  per = enter-Tracks ip s.peers s.nc.per_ip v.per;
  below_total = ground (arith, v.total);
  below_per = λ k. ground (arith, v.below_per k, v.per ip);
}

close-IsCapped :
    (caps : Caps) (ip : Text) (s : Open)
    → Member ip s.peers
    → IsCapped caps s
    → IsCapped caps (record { nc = disconnect ip s.nc; peers = close_one ip s.peers })
unfolding disconnect
close-IsCapped caps ip s m v = record {
  total = ground (arith, v.total, length-close_one ip s.peers m);
  per = leave-Tracks ip s.peers s.nc.per_ip m v.per;
  below_total = omega (arith, v.below_total, length-close_one ip s.peers m);
  below_per = λ k. ground (arith, v.below_per k, count-close_one k ip s.peers m);
}

Step-IsCapped : (caps : Caps) (s t : Open) → Step caps s t → IsCapped caps s → IsCapped caps t
Step-IsCapped caps s t (reject ip e same) v = subst (IsCapped caps) (sym same) v
Step-IsCapped caps s t (connect ip n e shape) v =
    let (room, entered) = accept-some caps ip s.nc n e in
    subst (IsCapped caps) (sym shape) (rw entered (connect-IsCapped caps ip s room v))
Step-IsCapped caps s t (close ip m shape) v =
    subst (IsCapped caps) (sym shape) (close-IsCapped caps ip s m v)

-- However connections come, are turned away and end, the counters tell how many are open in all and
-- from each address, with no entry for an address that has none, and no more are open than the caps
-- allow, in all and from each address.
pub Steps-IsCapped : (caps : Caps) (s : Open) → Steps caps s → IsCapped caps s
unfolding lookup
Steps-IsCapped caps s listening = record {
  total = refl;
  per = λ k. refl;
  below_total = omega arith;
  below_per = λ k. omega arith;
}
Steps-IsCapped caps t (step {s = s} before st) =
    Step-IsCapped caps s t st (Steps-IsCapped caps s before)
