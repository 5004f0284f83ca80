-- ===== src/Device/Clients.antt =====
-- DaliDeviceManager over two query clients of which one is a view of the other.
use savantix_dali_edge_contr.Prelude.{◌≡◌}
use savantix_dali_edge_contr.Core.{ShortAddress}
use savantix_dali_edge_contr.Protocol.Commands.{DaliCommand}
use savantix_dali_edge_contr.Protocol.Queue.{CommandPriority}
use savantix_dali_edge_contr.Protocol.Query.{IDaliQueryClient}
pub mod Scanning
pub mod Probing
pub mod Direct

-- `view` shows of the states of one client, as long as they are good, those of the other.
pub record IsView {C E : Type 0} (api : IDaliQueryClient C) (api' : IDaliQueryClient E)
    (view : C → E) (Good : C → Type 0) : Type 0 where
  pub answered :
      (c : C) (a : ShortAddress) (command : DaliCommand) (priority : CommandPriority)
      → Good c
      → api'.query (view c) a command priority
        ≡ ((api.query c a command priority).0, view (api.query c a command priority).1)
  pub stays_good :
      (c : C) (a : ShortAddress) (command : DaliCommand) (priority : CommandPriority)
      → Good c
      → Good (api.query c a command priority).1
