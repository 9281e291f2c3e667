-- ===== src/Cla/Manager.antt =====
-- pkg/cla/cla_manager.go. The steps are the parts of the methods that hold `stateMutex` or
-- `disconnectMutex`; between them other goroutines run.
pub mod Addresses
pub mod Joined
pub mod Present
pub mod Disconnected
use dtn7_go.Base.{
  ℕ, suc, ◌≡◌, List, [], ◌∷◌, ◌++◌, Bool, true, false, not, ◌&&◌, ◌||◌, Option, none, some,
  if◌then◌else◌, bytes_equal,
}
use dtn7_go.Bpv7.Endpoint.{EndpointId}

-- A CLA: the text of its address, which of the interfaces `ConvergenceReceiver` and
-- `ConvergenceSender` it has, and what its `GetPeerEndpointID` returns.
pub record Convergence : Type 0 where
  pub address : List ℕ
  pub is_receiver : Bool
  pub is_sender : Bool
  pub peer_endpoint_id : EndpointId

-- The last three are no fields of the program: the goroutines that run `activateCLA`, those that run
-- `NotifyDisconnect` and have noted the address, and the peers for which `disconnectCallback` was
-- started, the newest first.
pub record Manager : Type 0 where
  pub receivers : List Convergence
  pub senders : List Convergence
  pub pending_start : List Convergence
  pub listeners : List ℕ
  pub pending_removal : List (List ℕ)
  pub activating : List Convergence
  pub disconnecting : List Convergence
  pub disconnected : List EndpointId

-- `InitialiseCLAManager`
abbrev pub new_manager : Manager
new_manager = record {
  receivers = [];
  senders = [];
  pending_start = [];
  listeners = [];
  pending_removal = [];
  activating = [];
  disconnecting = [];
  disconnected = [];
}

unfoldable pub has_address : List ℕ → List Convergence → Bool
has_address a [] = false
has_address a (c ∷ cs) = bytes_equal a c.address || has_address a cs

-- The loops that keep the CLAs of other addresses.
unfoldable pub others : List ℕ → List Convergence → List Convergence
others a [] = []
others a (c ∷ cs) = if bytes_equal a c.address then others a cs else c ∷ others a cs

unfoldable pub listed : List ℕ → List (List ℕ) → Bool
listed a [] = false
listed a (x ∷ xs) = bytes_equal a x || listed a xs

-- `delete(manager.pendingRemoval, …)`
unfoldable pub unlisted : List ℕ → List (List ℕ) → List (List ℕ)
unlisted a [] = []
unlisted a (x ∷ xs) = if bytes_equal a x then unlisted a xs else x ∷ unlisted a xs

unfoldable pub find_cla : List ℕ → List Convergence → Option Convergence
find_cla a [] = none
find_cla a (c ∷ cs) = if bytes_equal a c.address then some c else find_cla a cs

-- The goroutines that are left when the first one for an address is through.
unfoldable pub drop_cla : List ℕ → List Convergence → List Convergence
drop_cla a [] = []
drop_cla a (c ∷ cs) = if bytes_equal a c.address then cs else c ∷ drop_cla a cs

unfoldable pub check_present : Convergence → Manager → Bool
unfolding has_address
check_present c m =
    has_address c.address m.pending_start
    || (c.is_receiver && has_address c.address m.receivers)
    || (c.is_sender && has_address c.address m.senders)

unfoldable pub register_async : Convergence → Manager → Manager
register_async c m = if check_present c m then m else record m {
  pending_start = m.pending_start ++ (c ∷ []);
  activating = m.activating ++ (c ∷ []);
}

-- The end of `activateCLA`, when `Activate` has returned without an error or with one.
unfoldable pub finish_activation : Convergence → Bool → Manager → Manager
unfolding others drop_cla
finish_activation c fine m = record m {
  pending_start = others c.address m.pending_start;
  receivers = if fine && c.is_receiver then m.receivers ++ (c ∷ []) else m.receivers;
  senders = if fine && c.is_sender then m.senders ++ (c ∷ []) else m.senders;
  activating = drop_cla c.address m.activating;
}

-- The beginning of `NotifyDisconnect`.
unfoldable pub note_disconnect : Convergence → Manager → Manager
note_disconnect c m = if listed c.address m.pending_removal then m else record m {
  pending_removal = c.address ∷ m.pending_removal;
  disconnecting = c ∷ m.disconnecting;
}

-- The rest of it.
unfoldable pub finish_disconnect : Convergence → Manager → Manager
unfolding others unlisted drop_cla
finish_disconnect c m = record m {
  receivers = if c.is_receiver then others c.address m.receivers else m.receivers;
  senders = if c.is_sender then others c.address m.senders else m.senders;
  disconnected = if c.is_sender then c.peer_endpoint_id ∷ m.disconnected else m.disconnected;
  pending_removal = unlisted c.address m.pending_removal;
  disconnecting = drop_cla c.address m.disconnecting;
}

-- `RegisterListener`, whose listener is started without an error or not.
unfoldable pub register_listener : ℕ → Bool → Manager → Manager
register_listener l fine m = if fine then record m { listeners = m.listeners ++ (l ∷ []) } else m

-- `shutdown`; goroutines that hold the manager go on.
unfoldable pub shutdown : Manager → Manager
shutdown m = record m { receivers = []; senders = []; listeners = [] }

pub data Event : Type 0 where
  registering : Convergence → Event
  activated : List ℕ → Bool → Event
  disconnecting_from : Convergence → Event
  removing : List ℕ → Event
  listening : ℕ → Bool → Event
  shutting_down : Event

abbrev with_found : Option Convergence → (Convergence → Manager) → Manager → Manager
with_found none f m = m
with_found (some c) f m = f c

unfoldable pub perform : Event → Manager → Manager
unfolding find_cla
perform (registering c) m = register_async c m
perform (activated a fine) m =
    with_found (find_cla a m.activating) (λ c. finish_activation c fine m) m
perform (disconnecting_from c) m = note_disconnect c m
perform (removing a) m = with_found (find_cla a m.disconnecting) (λ c. finish_disconnect c m) m
perform (listening l fine) m = register_listener l fine m
perform shutting_down m = shutdown m

-- What any sequence of steps makes of a new manager.
pub data Reached : Manager → Type 0 where
  start : Reached new_manager
  step : {m : Manager} → Reached m → (e : Event) → Reached (perform e m)
