-- ===== src/Tests.antt =====
-- Runs of the theorems on concrete inputs.
mod Image
mod Terminates
mod RankedUnits
mod Contents
mod Programs
mod Machine
mod Builder
mod Filesystem
mod Archive
mod Lookup
mod Microcode
mod Modules
mod Encoders
mod Program
mod Libraries
mod Grammar
mod Ranked
mod Units
