-- ===== src/Lib.antt =====
-- Models and theorems for the Odoo addons of this repository.
--
-- The program is a set of Odoo addons under odoo_custom_addons/. A user's Nostr keys sign events
-- that nostr_publisher and gitlab_nostr_bridge send to relays and read back from them; dao_core
-- signs transactions of a DAO member and follows them on a chain; integrated_ivcs is to log the
-- branches of a repository as events. An addon is a set of models: records in a database with
-- methods that read and write them, called by a button, a route or a cron job.
--
-- Files, by part:
--   * Base, Base/Tests, Base/Lists: names of the library that all files share; tests on numbers;
--     lists measured by native numbers with Python's comprehensions.
--   * Python: exceptions as values (`Result`), and methods that mutate a record and may raise
--     (`Exec S A`): the state comes back beside an exception too, as in Python.
--   * Text, Text/Split, Json: `split`, `strip`, `join`, `lower` and `json.loads` of the standard
--     library, as far as the addons use them.
--   * Odoo: notifications, the truth of a text field, and the rollback of a request: an exception
--     that leaves a handler undoes all its writes.
--   * Nostr, Chain: the packages nostr, bech32, web3 and eth_account. They are not in the
--     repository; the definitions take them as records of functions.
--   * Publisher and its folder: odoo_custom_addons/nostr_publisher. Publisher has the data of
--     models/nostr_publisher.py, the relay tests and the computed fields; Publisher/Keys its key
--     conversion; Publisher/Publish `publish_event` with the methods it calls and
--     `_verify_event_published`; Publisher/Events the table of models/nostr_event.py, and
--     Publisher/Events/Listener the listener that fills it; Publisher/RelayRecord
--     models/nostr_relay.py; Publisher/Api the routes of controllers/main.py, the wizard of
--     wizards/submit_event_wizard.py and `publish_event_for_module`. Publisher/Outcome, Counters,
--     Verify, Attempts, Active, Events/Again and Events/KeyFormats hold theorems; Publisher/Tests
--     runs them.
--   * Bridge and its folder: odoo_custom_addons/gitlab_nostr_bridge/models/nostr_event.py. Bridge
--     has the data, the keys and `_create_nostr_event`; Bridge/Relays the class RelayManager;
--     Bridge/Strategies the publish strategies, the choice between them, the decorator and
--     `_new_relay_management_publish`; Bridge/GitLab `create_gitlab_event` and
--     `generate_event_id_and_signature`; Bridge/Sending `publish_nostr_event` with its retries;
--     Bridge/Intake the listener. Bridge/Sorted, Fastest, Rounds, Publishing, Kept and Stored hold
--     theorems, and Bridge/Tests runs them.
--   * Dao and its folder: odoo_custom_addons/dao_core/models/dao_transaction.py with the
--     connection of dao_config.py. Dao has the record and both ways to submit it, Dao/Drafts the
--     reset and the cancellation, Dao/Pending the retry and the update of pending transactions.
--     Dao/Submit is about the submission, Dao/Lifecycle about sequences of operations as a step
--     relation, Dao/Settling about the update, the retry and the reset; Dao/Tests runs them.
--     Dao/Member is odoo_custom_addons/dao_core/models/dao_member.py, as far as the private key
--     goes, with theorems in Dao/MemberKeys and runs in Dao/MemberTests. Dao/Network and
--     Dao/Contract are the rest of odoo_custom_addons/dao_core/models/dao_config.py: the tables of
--     networks, the gas price, contracts and the check of an ABI, with theorems in Dao/Abi. The
--     package cryptography is a record of functions, with what it promises as a record of laws.
--   * Ivcs and its folder: odoo_custom_addons/integrated_ivcs/models/branch_manager.py, with
--     `create_branch` of ivcs_item.py and `create_and_publish` of nostr_event.py, which raises a
--     KeyError for the events of branches. Ivcs has the operations on branches and the event of
--     each, Ivcs/Log the reconstruction of the branches from the event table, in the order of
--     `created_at`, and the item's own event. The package GitPython is a record of functions.
--     Ivcs/Unlogged holds theorems, and Ivcs/Tests runs them. Ivcs/Events is odoo_custom_addons/
--     integrated_ivcs/models/nostr_events.py, which the addon does not import: the classes of
--     events with `to_json`; Events/Reading has `from_json` up to the call on the class that
--     raises, and Events/Checks the constraints. Reading and writing JSON texts and dates is a
--     codec.
--   * Mirror and its folder: the GitLab side of odoo_custom_addons/gitlab_nostr_bridge/models.
--     Mirror is gitlab_branch.py and gitlab_commit.py, Mirror/Repository gitlab_repository.py and
--     the decorator of custom_error_handler.py, Mirror/Notices the button that sends a test event.
--     The replies of GitLab are a record of functions; what `list()` gives is the first page.
--     Mirror/Wizard and Mirror/Form are wizards/create_commit_wizard.py, Mirror/NewBranch is
--     wizards/create_branch_wizard.py and Mirror/Users res_users.py, Mirror/Config
--     res_config_settings.py. Mirror/Table, Synced, Branches, Sync, Attribution, Pushes,
--     BranchPushes, FormAction, UserKeys and Saved hold theorems; Mirror/Tests and WizardTests run
--     them.
--   * Wallet and its folder: odoo_custom_addons/web3_wallet_bad/models. Wallet is
--     wallet_transaction.py, Wallet/Config wallet_config.py, Wallet/Users res_users.py and
--     wallet_utils.py. Wallet/Sending, Lifecycle, Updates, Fees, Raising and Keys hold theorems,
--     and Wallet/Tests runs them.
--   * Anchor: odoo_custom_addons/git_repository_anchor/models/repository_anchor.py, with theorems
--     in Anchor/Permission and runs in Anchor/Tests.
--   * Identity: odoo_custom_addons/nostr_identity/models/nostr_identity_verifier.py, and the
--     creation of keys of nostr_identity.py. What the handlers of the socket write while a method
--     polls is a function of the number of the poll. Identity/Polling holds theorems, and
--     Identity/Tests runs them.
--   * Atom: odoo_custom_addons/atom_system/models/atom_conflict_resolution.py, the synchronization
--     of the values of an atom with another node, with theorems in Atom/Merging and Atom/Sync and
--     runs in Atom/Tests.
--   * Opinion: odoo_custom_addons/opinion_reputation_system/models and the same methods of
--     opinion_reputation_nostr/models/opinion_reputation.py, with theorems in Opinion/Settling and
--     runs in Opinion/Tests.
--
-- State and operations: a record of the database is a record here with the source's field names; a
-- method is a function with the source's name less its leading underscore. A table is a list. Each
-- exchange with a relay or a chain is a function of the url (and of the number of the attempt,
-- where the code tries again), whose result may be an exception.
--
-- Bounds: a retry loop has the source's number of rounds (3 tests of a relay, 3 messages or
-- attempts of a verification, 12 attempts of the relay manager, 20 polls of a verifier)
-- and is a structural recursion on the rounds left. The listener, which runs forever, is a
-- function of the finite sequence of what it has received so far.
--
-- Numbers: times are clock ticks, amounts and gas prices whole numbers of wei where the code has
-- floats of ether and gwei, and a rate is a quotient of whole numbers.
--
-- Not modelled: views, access rules, logging, the job queue (a copy of another project's library),
-- translations (`_` is the identity where it is imported), and the real timing of sockets. An
-- event on the wire is read at the keys the code reads. Its kind and its date are natural numbers:
-- numeric texts, fractions and negative numbers, which Odoo would convert, are outside of the model
-- and count as missing there.
pub mod Base
pub mod Python
pub mod Text
pub mod Json
pub mod Odoo
pub mod Nostr
pub mod Publisher
pub mod Chain
pub mod Dao
pub mod Bridge
pub mod Ivcs
pub mod Identity
pub mod Atom
pub mod Opinion
pub mod Anchor
pub mod Wallet
pub mod Mirror
