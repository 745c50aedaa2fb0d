-- ===== src/Devnet/Ports.antt =====
-- tempo/devnet/ports.py: the ports of a node, and the search for free blocks of ports.
pub mod Laws
use tempo_py.Prelude.{
  ℕ, zero, suc, ◌+◌, ◌*◌, Bool, true, ◌&&◌, List, [], ◌∷◌, ◌++◌, map, ltb, if◌then◌else◌, max,
  Result, ok, err, value_error, runtime_error, ◌>>=◌,
}

unfoldable pub consensus_p2p_port : ℕ → ℕ
consensus_p2p_port base_port = base_port

unfoldable pub execution_p2p_port : ℕ → ℕ
execution_p2p_port base_port = base_port + 1

unfoldable pub consensus_metrics_port : ℕ → ℕ
consensus_metrics_port base_port = base_port + 2

unfoldable pub authrpc_port : ℕ → ℕ
authrpc_port base_port = base_port + 3

unfoldable pub http_rpc_port : ℕ → ℕ
http_rpc_port base_port = base_port + 4

unfoldable pub ws_rpc_port : ℕ → ℕ
ws_rpc_port base_port = base_port + 5

abbrev pub ports_per_node : ℕ
ports_per_node = 6

-- The sockets: the port that binding to port 0 gives on an attempt, and `_can_bind` on it.
pub record Sockets : Type 0 where
  pub ephemeral_port : ℕ → ℕ
  pub can_bind : ℕ → ℕ → Bool

-- The `n` numbers from `start` on, as of `range(start, start + n)`.
abbrev pub range : ℕ → ℕ → List ℕ
range start zero = []
range start (suc n) = start ∷ range (suc start) n

-- `[base + i * stride for i in range(count)]`
unfoldable pub blocks : ℕ → ℕ → ℕ → List ℕ
blocks base stride count = map (λ i. base + i * stride) (range 0 count)

-- `[p + k for p in bases for k in range(PORTS_PER_NODE)]`
unfoldable pub needed : List ℕ → List ℕ
needed [] = []
needed (p ∷ bases) = map (λ k. p + k) (range 0 ports_per_node) ++ needed bases

-- `max(…)`, which raises on an empty list.
unfoldable pub maximum : List ℕ → Result ℕ
maximum [] = err value_error
maximum (x ∷ []) = ok x
maximum (x ∷ y ∷ xs) = maximum (y ∷ xs) >>= λ m. ok (max x m)

-- `all(test(x) for x in xs)`
unfoldable pub all_of : (ℕ → Bool) → List ℕ → Bool
all_of test [] = true
all_of test (x ∷ xs) = test x && all_of test xs

-- The attempts from number `i` on.
unfoldable pub search_from : Sockets → ℕ → ℕ → ℕ → ℕ → Result (List ℕ)
search_from sockets count stride i zero = err runtime_error
search_from sockets count stride i (suc left) =
    let bases = blocks (sockets.ephemeral_port i) stride count in
    let rest = search_from sockets count stride (suc i) left in
    (maximum (needed bases) >>= λ m.
    if ltb m 65500 && all_of (sockets.can_bind i) (needed bases) then ok bases else rest)

-- `find_free_base_ports(count, stride=stride)`, for a count and a stride of at least 0.
unfoldable pub find_free_base_ports : Sockets → ℕ → ℕ → Result (List ℕ)
find_free_base_ports sockets count stride = search_from sockets count stride 0 200
