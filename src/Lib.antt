-- ===== src/Lib.antt =====
-- The firmware of the HQ LED lamp: models of its C components and their theorems.
--
-- Parts and files
--   Lamp        components/lamp_control: the singleton that owns the PWM output. Types has the
--               header's types and constants, Hal the PWM layer, Duty the conversions, Control the
--               state, the fail-off and the channel loops, Operations the public operations, each
--               with its _locked body, Lock the spin lock. lamp_control_X is the operation X, and
--               lamp_fail_off is fail_off; lamp_control_init is init_locked. Off, Release, Valid,
--               Quiet, Electric, Start, Trace, Barrier, Outcome and Rounding hold the proofs.
--   TbApplication  components/tb_application: the lamp behind ThingsBoard. Parse and Updates validate
--               what arrives, Module is the static state and the apply paths, Fields and Rpc the
--               request handlers, Lifecycle the rest of the public functions; a function tb_app_X or
--               tb_application_X is X, with app_ before a name that the lamp has too. It calls Lamp
--               with the lamp's state and hardware, which it keeps in one record Sys with its own.
--               Handlers is an induction principle over the handlers; Trace has the entry points in
--               any order; the other modules hold proofs on it.
--   AppConfig   components/app_config: the documents device.json and manufacturing.json. Fields has the
--               checks on members and texts, Device and Manufacturing the two validators, Storage the
--               paths and read_whole_file, Stored the validation, migration and commit of stored bytes,
--               Typed the commit of a typed document, Load the loading with recovery and
--               app_config_migrate_stored. app_config_X is X; app_config_commit_device and
--               app_config_commit_manufacturing are commit_document. Keys, Accepted, Exact, Strings,
--               ReadAll, Loads, Untouched, Committed, ReadBack, RoundTrip, Store and Refinement
--               hold the proofs.
--   AppMain     main/app_main.c. Services is the interface to the components and the platform that the
--               program calls, Session the ThingsBoard session, the configuration gates and the verified
--               connection, Network the wait for the network and the portal's events, Supervisor the
--               gates and the iteration, Reset the erasure of a factory reset, which uses Lamp.
--               Connected, Rejections, Counting, Waits, Kept, Deliveries, Guarded, Iterations and
--               Cleared hold the proofs; MockBoard and MockDir are a board and a directory to run on.
--   MqttCfg     components/mqtt_cfg: the endpoint's configuration and the verified connection. Types has the
--               header's types, Fields the checks of host names, client ids and paths, Document the reading of
--               mqtt.json, Validation the policy, Platform the interface to the platform, the static
--               variables and the safety callbacks, Load, Apply and Connect the public functions, Publish
--               the creation of the lock by several threads; mqtt_cfg_X is X, and mqtt_cfg_fail_off is
--               fail_off_lamp. It calls Lamp with the lamp's state and hardware, which it keeps in one record
--               Endpoint with its own. Callbacks, Preserved and Kept say what every operation keeps of a
--               predicate; Trace has the operations in any order; Names, Paths, Policy, Parsed, Strict,
--               Accepts, Address, Handed, Applied, Closed, Waiting, Established, Dark, Refused, Failed, Invariants and
--               Published hold the proofs on them; MockBroker is a platform to run on,
--               and Races has runs in the middle of a callback.
--   TbProvisioning  components/tb_provisioning: Config reads provisioning.json, Identity stores the identity
--               of an enrollment. tb_provisioning_load and tb_provisioning_enroll are provisioning_load and
--               provisioning_enroll. Loaded, Exact and Atomic hold the proofs.
--   Json        cJSON and the C double, as parameters; MockJson is a small parser for the runs.
--   Common      names and lemmas that the other modules share.
--
-- Conventions
--   An operation takes the module's static state and the hardware, and returns its status, the new
--   state and the new hardware. A null pointer is none, or false for an output pointer of which only
--   the presence matters. A uint8_t, uint32_t or uint64_t is a number; a C expression that could wrap
--   has its modulus written out. Loops over at most three channels are recursions on the list of
--   pins or on the rounds left, so no fuel is needed.
--   hal_pwm.h lies in the platform submodule: its operations are the record Hal, which every
--   operation takes, and what the lamp relies on is the record HalLaws. Lamp/MockHal.antt meets them.
--   cJSON is the record CJson: a parser and the accessors. That a member is found by
--   its name, and that a double which equals an integer compares like it, are hypotheses where they are
--   needed. What tb_application hands to the platform's client and synchronizer is a list of events,
--   newest first; whether there is memory for a success response is a parameter that depends on
--   what has happened before. The entry points of tb_application are taken one after the other,
--   although its apply callback calls the lamp outside the module's mutex.
--   The files, the heap and hq_json_doc_commit are the record Storage of operations on a world; what is
--   documented of them are the records StorageLaws, CommitLaws and FrameLaws, or the hypotheses that a theorem
--   names, and AppConfig/MemoryStore.antt meets them. The reading loop of read_whole_file has a fuel of 2050
--   rounds: each round but the last adds a byte, and it stops beyond 2048 bytes. cJSON's printer and
--   the registered migration handler are arguments.
--   The supervisor is modelled for any number of its iterations. Its wait for the network has a fuel of
--   601 rounds, which 30000 ms in steps of 50 ms do not use up; the fuel of the loop over the portal's
--   events, and of the search of a directory, is an argument, enough if it exceeds what is waiting.
--   The components that app_main calls are the operations of Services on one world, and what a theorem
--   assumes of them it names: KeptBySession, Guarded, Queue, Rejects and DirLaws.
--   The components and the platform that mqtt_cfg calls are the operations of the record Platform; a
--   call that blocks, and the moment before the release of the barrier, give the steps that the transport's
--   callbacks take meanwhile: single reads, writes and fail-offs, so that a callback may be cut anywhere.
--   The public calls of mqtt_cfg are taken one after the other, although its lock is given back around the
--   calls that block. The loop of mqtt_cfg_connect has a fuel of timeout_ms / 25 + 2 rounds, which a wait in
--   steps of 25 ms does not use up.
--   The files that tb_provisioning writes and cJSON's printer are the record Volume, what is documented of
--   them the record VolumeLaws; the parser that it calls without the demand to consume the whole text, and
--   tb_enrollment_enroll, are arguments.
--   The number of members of a JSON payload bounds its loops, which are
--   recursions on the parser's list.
--   A float duty is the abstract value that the quotient by LAMP_DUTY_SCALE gives.
--
-- Not modelled
--   Log output, the texts of telemetry and responses, app_config_redact, which forwards to
--   the platform, the start sequence and the callbacks of app_main, and the other components.
--   The memory order of the spin lock's flag: an action on it is one atomic step.
pub mod Common
pub mod Lamp
pub mod Json
pub mod TbApplication
pub mod AppConfig
pub mod AppMain
pub mod MqttCfg
pub mod TbProvisioning
