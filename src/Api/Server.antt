-- ===== src/Api/Server.antt =====
-- server.ts: the open connections, which a shutdown ends and, five seconds later, destroys. A socket
-- is a number.
use web3_nft.Prelude.{
  ℕ, ◌≡◌, refl, ap, ◌∙◌, Bool, true, false, ◌||◌, List, [], ◌∷◌, ◌++◌, arith, ◌==◌, if◌then◌else◌,
}

pub data SocketEvent : Type 0 where
  connection : ℕ → SocketEvent
  close : ℕ → SocketEvent

-- `connections.filter(curr => curr !== connection)`
unfoldable pub filter_out : ℕ → List ℕ → List ℕ
filter_out c [] = []
filter_out c (d ∷ ds) = let rest = filter_out c ds in if d == c then rest else d ∷ rest

unfoldable pub on_socket : SocketEvent → List ℕ → List ℕ
unfolding filter_out
on_socket (connection c) connections = connections ++ c ∷ []
on_socket (close c) connections = filter_out c connections

unfoldable pub connections_after : List SocketEvent → List ℕ → List ℕ
unfolding on_socket
connections_after [] connections = connections
connections_after (e ∷ es) connections = connections_after es (on_socket e connections)

-- The sockets that `shutdown` ends, in their order; the ones open after the delay are destroyed.
abbrev pub shutdown : List ℕ → List ℕ
shutdown connections = connections

pub has_socket : ℕ → List ℕ → Bool
has_socket c [] = false
has_socket c (d ∷ ds) = d == c || has_socket c ds

-- Whether the last event of a socket opened it.
pub is_open : ℕ → Bool → List SocketEvent → Bool
is_open c before [] = before
is_open c before (connection d ∷ es) = is_open c (if d == c then true else before) es
is_open c before (close d ∷ es) = is_open c (if d == c then false else before) es

has_socket-append :
    (c d : ℕ) (ds : List ℕ)
    → has_socket c (ds ++ d ∷ []) ≡ (if d == c then true else has_socket c ds)
unfolding has_socket
has_socket-append c d [] = ground arith
has_socket-append c d (e ∷ ds) = let rest = has_socket-append c d ds in ground arith

has_socket-filter_out :
    (c d : ℕ) (ds : List ℕ)
    → has_socket c (filter_out d ds) ≡ (if d == c then false else has_socket c ds)
unfolding has_socket filter_out
has_socket-filter_out c d [] = ground arith
has_socket-filter_out c d (e ∷ ds) = let rest = has_socket-filter_out c d ds in ground arith

-- What a shutdown ends: exactly the sockets that were opened and not closed since.
pub shutdown_lem :
    (c : ℕ) (es : List SocketEvent) (connections : List ℕ)
    → has_socket c (shutdown (connections_after es connections))
      ≡ is_open c (has_socket c connections) es
unfolding connections_after is_open
shutdown_lem c [] connections = refl
shutdown_lem c (connection d ∷ es) connections =
    shutdown_lem c es (connections ++ d ∷ [])
    ∙ ap (λ b. is_open c b es) (has_socket-append c d connections)
shutdown_lem c (close d ∷ es) connections =
    shutdown_lem c es (filter_out d connections)
    ∙ ap (λ b. is_open c b es) (has_socket-filter_out c d connections)
