-- ===== src/Lib.antt =====
-- Homelab Builder's frontend: the canvas on which a network of devices is drawn, and the rules that it
-- keeps. Paths below are from the repository's root.
--
-- The store of the builder (frontend/src/features/builder/store/builder-store.ts) holds one state: the
-- devices, their cards and cables as React Flow draws them, the undo stacks, and what a save needs. Its
-- actions are functions on that state here. A link that is drawn is first judged by the link rules, which
-- use the power handles and the table of hardware.
--
-- Store: builder-store.ts. Store.State is the state (BuilderState, Snapshot, Node, Edge) and
--   HardwarePatch, a Partial<HardwareNode>. Store.History is recordEdit, changeDevice, undo and redo;
--   Store.Devices is addHardware, removeHardware, updateHardware and duplicateHardware; Store.Parts the
--   components and guests of a host and its virtual network; Store.Links onNodesChange, onEdgesChange,
--   onConnect and applyLayout; Store.Cables updateEdge; Store.Project tags, settings, focus and
--   clearCurrentBuild; Store.Payload getBuildData; Store.Loading loadBuild, hasUnsavedChanges and
--   refreshSaveState, with frontend/src/features/builder/lib/build-mapper.ts; Store.Signature
--   graphSignature; Store.Saving reassignAllIPs with mergeServerDetails and what a lost or refused save
--   does; Store.Remote openBuild, syncWithServer, applyProposal and validateNetwork; Store.Preview
--   startProposalPreview and buildProposalPreview, and Store.Validation validationToIssues
--   (frontend/src/features/builder/lib/proposal-preview.ts). Store.Edits puts the actions that are undo steps in
--   one type. Store.Canvas and Store.Sound say what a whole canvas is and carry it through every action.
-- Autosave: frontend/src/features/builder/store/autosave.ts, startAutosave as a machine: its events are a
--   change of the store, a timer that fires, the end of a save, and leaving.
-- Connection: frontend/src/features/builder/lib/connection-rules.ts, checkConnection with its searches.
-- Power: frontend/src/features/builder/lib/power-ports.ts, handles, counts and normalizePowerConnection.
-- Hardware: frontend/src/lib/hardware-config.ts, the features of each hardware type.
-- Types: frontend/src/types/index.ts.
-- Virtual: virtual-network.ts and hardware-instance.ts of frontend/src/features/builder/lib, and
--   frontend/src/lib/asset-link.ts.
-- Gaming: sizing.ts and table.ts of frontend/src/features/gaming/lib.
-- Sse: frontend/src/features/assistant/lib/sse.ts, readSSE on the code units of its chunks.
-- Import: frontend/src/features/integrations/lib/import-selection.ts, which changes an import makes and
--   what the server is told.
-- Ports: frontend/src/features/builder/lib/port-config.ts, the settings of ports, addresses, VLANs and
--   port counts.
-- Usage, Zones: frontend/src/features/builder/lib, what guests use (resource-usage.ts) and which cables
--   lead into the LAN of a device with NAT (network-zone.ts).
-- Search: the breadth-first search that connection-rules.ts writes out twice.
-- Text: prefixes and decimal numbers. Base: lists, options, tests, signed numbers
--   and sorting.
--
-- A Map or an object is an association list that keeps the order of insertion. Numbers with a fraction
-- (positions, watts, megabytes, cores) count thousandths. A missing key is none; where null and undefined
-- differ, as in the comparison of handles, both are there. An id that randomUUID gives is a parameter.
--
-- A power handle's number is what Number gives: exact up to 2^53, then rounded as a double, and Infinity
-- from 2^1024; 971 doublings of the rounding step reach every double.
--
-- The searches of Connection run on fuel: two rounds more than there are ends of edges. Each round visits
-- a device that was not visited before, so Search.Fuel shows that the search ends with an answer. The
-- search of Virtual runs on two rounds more than there are switches, as each switch joins its queue once.
--
-- Parameters: what TextDecoder makes of each chunk (in Sse), React Flow's applyNodeChanges, applyEdgeChanges and addEdge (the record ReactFlow, with the
-- laws IsReactFlow that its documentation gives), String.trim and Number (in Power, Import, Ports, Usage and Gaming.Table), randomUUID, and
-- JSON.parse and JSON.stringify (in Store.Loading and Store.Saving), localeCompare (in Store.Signature and Store.Preview),
-- the answers of the server and Date.now (in Store.Saving and Store.Remote).
--
-- An action that waits for the server is cut there: one function says what is sent, and another what each
-- answer does to whatever state it meets, so every order of edits and answers is covered.
--
-- Not modelled: HTTP itself, the queue that runs the saves one after the other, the save that some
-- actions schedule afterwards, what is drawn on the screen, the layout engine, the planners and the inventory. The
-- edge preferences and the list of services are left out of the state, as no action that is modelled
-- changes them.
pub mod Base
pub mod Search
pub mod Hardware
pub mod Types
pub mod Usage
pub mod Text
pub mod Power
pub mod Connection
pub mod Virtual
pub mod Store
pub mod Gaming
pub mod Autosave
pub mod Sse
pub mod Import
pub mod Ports
pub mod Zones
