-- ===== src/Lib.antt =====
-- OpenSwitcher: the core of the daemon that corrects words typed in the wrong keyboard layout.
--
-- The daemon reads key events, keeps the strokes of the current word, decides whether and how the
-- word is retyped, and presses the keys of the correction itself. What the user types meanwhile is
-- deferred and handled later. Nine parts are modelled, each as functions on records, and a method
-- that changes its receiver returns the changed one.
--
-- * Deferred (src/daemon/deferred_input.rs; src/daemon/service.rs: drain_deferred_head_with and
--   the numbering of events): the bounded queue of deferred events, with its counters. `run` makes
--   a list of calls; the end of a drain does nothing unless the queue is empty, as in the service. The queue is a list with its head first; `u64` counters saturate at 2^64-1 as
--   in the source.
-- * Switch (src/daemon/switch_logic.rs, and replay_shift_for_stroke of src/daemon/keyboard.rs):
--   letter case, Caps Lock, the splitting of a word, the plans of a correction, the replay of
--   strokes, and the heuristics on English and Russian words. A `char` is its code point, and a
--   string the list of its characters.
-- * Synthetic (src/daemon/synthetic_input.rs, src/error/input_safety_error.rs): the ledger of the
--   keys that the program may hold down, the frozen snapshot and the restore plan of modifiers,
--   the ledger of the session's modifiers, and the operation with all its methods and its drop. A
--   method is a `Step`: it takes the operation and returns the changed one with a value or an
--   error, and `>>=` stops at the first error, as the operator ? does. The key sink (X11 or
--   uinput), the clock, the authorizer of a restore and the flags that other threads set are
--   parameters: a sink is a record of functions, and each look at the flags is one entry of a
--   sequence of observations. What a sink must do is the record `SinkLaws`.
--
-- * Guardian (src/daemon/xtest_guardian/protocol.rs and service.rs): the process that presses the
--   keys on an X11 server for the daemon. The frames are encoded by a writer that appends to a list
--   of bytes and decoded by a reader that returns what is left; a method of `ProtocolState` makes all
--   its checks and then its writes. `GuardianSession` carries the requests out. Its executor, which
--   talks to the X server, is a record of functions, and the clock is a function of the number of
--   its readings; `serve` runs the loop of a connection over a list of what the socket, the signals
--   and the clock give. The observer of the cleanup, the frames that report a failure to the peer
--   and the waiting on file descriptors are left out.
--
-- * Model (src/model.rs): the hotkeys with their parsing and printing, the older names of keys, the
--   settings, their validation and the patches that the settings window sends, and the estimate of a
--   correction's time. A `match` on fixed texts is a search in a table, a mask is a number, and the
--   tests of derived equality are decisions.
--
-- * Config (src/config.rs): the configuration, its validation, and saving and loading it. The TOML
--   library and the file system are parameters; the file is an optional text.
--
-- * Layout (src/layout_backend: model.rs, capabilities.rs, detection.rs and policy.rs;
--   src/daemon/input_snapshot.rs and layout_setup_retry.rs): which layouts the system has, which of
--   them is the current one, the features that they allow, for how long a decision may rest on a
--   snapshot of the layout, and when a setup is looked for again. The answers of the system's tools
--   are arguments; a set is the list of what was put into it.
--
-- * Activity (src/daemon/session_activity/mod.rs): the choice of the session that may be served, its
--   publication to other threads, and the leases that these obtain and check. A call of the publisher
--   is the list of its stores, made while it holds the lock; a thread that obtains or checks a lease is
--   a state for each of its loads. `turns` runs one publisher and one thread in any given order, and
--   threads that only load do not change what another finds. The loop of the monitor is left out.
--
-- * Keyboard (src/daemon/keyboard.rs): the control of a transaction of the thread that types, the
--   completions of manual corrections, and the state of the modifiers. A method that holds the lock of
--   the writer is one step; `run` makes the calls of any threads on the transactions of one writer, in
--   any given order. The lease's answers and the looks at the clock are arguments. A sleep finds in each
--   round what other threads left, and a completion what they did between its two publications.
--
-- Key holds the key codes that the program names; Prelude the shared helpers; Tests the runs and
-- the theorems at concrete inputs. All loops are structural recursion, except two. The decimal digits
-- of a layout's index run on a fuel of ten, and a `u32` has at most ten digits. A sleep runs on a fuel
-- that counts its rounds; one more than the quanta that fit in it is enough on a clock that keeps up.
--
-- Not modelled: the devices, sockets, D-Bus, the clipboard and the other I/O, threads as such, a
-- panic of a key sink and the poisoning of a mutex; and the parts of the repository not named
-- above.
pub mod Prelude
pub mod Key
pub mod Deferred
pub mod Switch
pub mod Synthetic
pub mod Guardian
pub mod Layout
pub mod Model
pub mod Config
pub mod Activity
pub mod Keyboard
mod Tests
