-- ===== src/Router/Server.antt =====
-- The accept loop and handleConn of pkg/router/router.go, as the steps of the goroutines over what
-- they share: the buffers in authSem, the sync.Map of peers and the peers that are closed.
pub mod Invariant
pub mod Orphan
use sprut.Base.{◌==◌, ◌++◌, if◌then◌else◌, [], ◌∷◌, suc, ℕ, List}

-- How far a goroutine of handleConn has come: it authenticates; it knows the client's id and has a
-- peer; it has taken the old peer out of the map; it serves its own; it has taken
-- the entry of its id out of the map and is about to close its peer.
pub data Stage : Type 0 where
  authenticating leaving : Stage
  created replacing serving : ℕ → Stage

-- A connection and the goroutine that handles it; a session number stands for the connection's Peer.
pub data Handler : Type 0 where
  handler : ℕ → Stage → Handler

-- `closed` are the sessions on whose peers Close was called. An id, an array of 32 bytes, is the
-- number that they write.
pub data Server : Type 0 where
  server : ℕ → List Handler → List (ℕ × ℕ) → List ℕ → Server

-- The sync.Map's Delete, LoadAndDelete's value and Store.
unfoldable pub delete : ℕ → List (ℕ × ℕ) → List (ℕ × ℕ)
delete id [] = []
delete id ((id', s) ∷ ps) = let rest = delete id ps in if id == id' then rest else (id', s) ∷ rest

unfoldable pub loaded : ℕ → List (ℕ × ℕ) → List ℕ
loaded id [] = []
loaded id ((id', s) ∷ ps) = let rest = loaded id ps in if id == id' then s ∷ [] else rest

unfoldable pub store : ℕ → ℕ → List (ℕ × ℕ) → List (ℕ × ℕ)
unfolding delete
store id s ps = (id, s) ∷ delete id ps

-- A step of one goroutine. A connection is taken on while there is a buffer, and refused otherwise,
-- which changes nothing.
pub data Step : Server → Server → Type 0 where
  accept :
      (s n : ℕ) (hs : List Handler) (ps : List (ℕ × ℕ)) (cl : List ℕ)
      → Step (server (suc n) hs ps cl) (server n (handler s authenticating ∷ hs) ps cl)
  refuse :
      (hs : List Handler) (ps : List (ℕ × ℕ)) (cl : List ℕ)
      → Step (server 0 hs ps cl) (server 0 hs ps cl)
  turn_away :
      (s n : ℕ) (xs ys : List Handler) (ps : List (ℕ × ℕ)) (cl : List ℕ)
      → Step
          (server n (xs ++ (handler s authenticating ∷ ys)) ps cl)
          (server (suc n) (xs ++ ys) ps cl)
  create :
      (s id n : ℕ) (xs ys : List Handler) (ps : List (ℕ × ℕ)) (cl : List ℕ)
      → Step
          (server n (xs ++ (handler s authenticating ∷ ys)) ps cl)
          (server n (xs ++ (handler s (created id) ∷ ys)) ps cl)
  replace :
      (s id n : ℕ) (xs ys : List Handler) (ps : List (ℕ × ℕ)) (cl : List ℕ)
      → Step
          (server n (xs ++ (handler s (created id) ∷ ys)) ps cl)
          (server n (xs ++ (handler s (replacing id) ∷ ys)) (delete id ps) (loaded id ps ++ cl))
  start :
      (s id n : ℕ) (xs ys : List Handler) (ps : List (ℕ × ℕ)) (cl : List ℕ)
      → Step
          (server n (xs ++ (handler s (replacing id) ∷ ys)) ps cl)
          (server n (xs ++ (handler s (serving id) ∷ ys)) (store id s ps) cl)
  remove :
      (s id n : ℕ) (xs ys : List Handler) (ps : List (ℕ × ℕ)) (cl : List ℕ)
      → Step
          (server n (xs ++ (handler s (serving id) ∷ ys)) ps cl)
          (server n (xs ++ (handler s leaving ∷ ys)) (delete id ps) cl)
  release :
      (s n : ℕ) (xs ys : List Handler) (ps : List (ℕ × ℕ)) (cl : List ℕ)
      → Step
          (server n (xs ++ (handler s leaving ∷ ys)) ps cl)
          (server (suc n) (xs ++ ys) ps (s ∷ cl))

-- What the goroutines come to from the start of Serve.
pub data Reachable (capacity : ℕ) : Server → Type 0 where
  initial : Reachable capacity (server capacity [] [] [])
  later : {a b : Server} → Reachable capacity a → Step a b → Reachable capacity b
