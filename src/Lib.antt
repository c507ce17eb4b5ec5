-- ===== src/Lib.antt =====
-- FreedomBox: the service that runs the apps of a FreedomBox server (plinth/).
--
-- Operation (plinth/operation.py): what takes long, such as the setup of an app, is an Operation that
--   runs in a thread of its own. OperationsManager keeps the operations in a dictionary and starts one
--   after the other. Operations are shared objects, so they live on a heap, which with the fields of
--   the manager and the stored notifications is the state `World`. Each method of the manager holds a
--   lock and is one step; the thread of an operation takes a step when it enters its target, when it
--   reports, when the target ends, and when the callback runs, so that calls can come in between: the
--   relation `Step`. Values that a target returns and exceptions are texts, and every app of an
--   operation is registered. `translated_message`, `__str__` and `get_operation` are not modelled.
-- Backups (plinth/modules/backups/schedule.py): Schedule decides when a backup is made and which
--   archives go. The repository is an interface, `Repository`, with the laws `IsRepository`, which hold
--   of a local one (RootBorgRepository): `prepare` of an SSH repository mounts it and `cleanup` unmounts
--   it, which can change what it lists. Each datetime.now() is a field of `Clock`. The comment of an archive is what JSON makes of it, so
--   the text that _serialize_comment gives is not modelled, nor is _get_repository. Dates is Python's
--   naive datetime for years below 9999.
--   Api is the backup and restore of apps (plinth/modules/backups/api.py, with class BackupRestore of
--   components.py): the services of the machine and the flags `locked` are an interface, and the hooks
--   and the handler are calls that change the system and the packet. Where all services are to be as
--   before, stopping or starting one is taken to change no other, which does not hold of units of systemd
--   that require one another. A service given as a dictionary of
--   the type 'system', snapshots (which the source leaves unimplemented) and what the hooks of
--   BackupRestore do with settings and files are not modelled.
-- App (plinth/app.py): Order is _sort_apps with _insert_apps. Its recursion has fuel, one more than the
--   number of apps that remain, and a call never needs more: each has taken an app away.
--   Lifecycle is the class App over the interface of its components, with the two components that the
--   file defines; what a component calls can raise, which `M` of Effect has.
-- Firewall (plinth/modules/firewall/components.py): the class Firewall over an interface of firewalld.
--   Errors of firewalld and the retry after them, FirewallLocalProtection and the port forwarding
--   information are not modelled.
-- LetsEncrypt (plinth/modules/letsencrypt/components.py): the class LetsEncrypt over an interface of its
--   privileged actions. The order of a set of domains is one of many. An event goes to all
--   components in the calling thread. What its hooks leave in files is told of components whose key and
--   certificate have different paths: into one path copy_certificate writes the one after the other.
-- Names (plinth/modules/names/components.py): DomainType and DomainName. The order of texts and the
--   text of a number are arguments.
-- Setup (plinth/setup.py): DpkgHandler, which runs the setup of apps again after dpkg, and ForceUpgrader,
--   which upgrades packages that prompt for configuration files, each with its loop of twelve attempts;
--   the setup, repair and uninstall of an app inside the thread of its operation, with the operation of
--   Operation; and the setup at the start of the service. The database, apt, and OperationsManager.new
--   with the join of the operation are arguments; what an app does is a record of its methods. The loop
--   of the start has fuel, since nothing bounds it but a success or a shutdown. The locks and single
--   instances of the handlers, and a repair inside the operation of another app, are not modelled.
--
-- Actions (plinth/actions.py): how the privileged daemon checks and runs a request, and _format_args,
--   which gives the text of the arguments for most of what is logged. A return value that JSON refuses,
--   for which json.dumps raises outside of `try`, is not modelled. What a module imports and what an action does are an environment, which is an argument. The
--   client with its socket and the values made of exceptions are not modelled.
-- Packages (plinth/package.py): package expressions, the component Packages over the cache of apt, which
--   packages an uninstall keeps, the wait of install and the known versions. The fuel of the two loops
--   is shown to be enough. Transaction, which runs apt, and the diagnosis are not modelled.
--
-- Diagnostics (plinth/modules/diagnostics/__init__.py): the run over all apps, with the results and the
--   progress as values, and its summary. The database, the notification and the repair of an app are an
--   interface. The warning about low memory and what the pages read are not modelled.
-- Daemon (plinth/daemon.py): Daemon and SharedDaemon over an interface of systemd. Their logs and diagnosis
--   are not modelled.
--
-- Base, Dict and Effect are shared: native numbers with their tests, dictionaries in insertion
--   order, and calls that change a state and can raise.
-- Not modelled are the web interface on Django, the calls of system services, files and the database,
-- and the modules of single apps.
pub mod Base
pub mod Dict
pub mod Effect
pub mod Operation
pub mod Backups
pub mod App
pub mod Firewall
pub mod LetsEncrypt
pub mod Names
pub mod Setup
pub mod Actions
pub mod Packages
pub mod Diagnostics
pub mod Daemon
