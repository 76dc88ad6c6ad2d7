-- ===== src/Tests.antt =====
-- Runs of the model on small inputs, and each theorem at an input that meets its conditions.
mod Buffer
mod Setup
mod Updates
mod Health
mod Images
mod Requests
mod Replies
mod Portal
mod World
mod Device
mod Files
mod Uploads
mod Firmware
