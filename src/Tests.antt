-- ===== src/Tests.antt =====
-- Runs of the definitions on concrete inputs, and each theorem with hypotheses at an input.
mod Collect
mod Settings
mod Copy
mod Service
mod Grpc
mod Requests
mod Document
mod Zip
mod Texts
mod Watch
mod Http
mod K2
mod Waiting
mod Windows
mod Setup
mod Client
mod Tools
mod Plugins
mod History
mod Chunked
mod Program
mod Lifetime
mod Loading
mod Opened
mod Stopping
