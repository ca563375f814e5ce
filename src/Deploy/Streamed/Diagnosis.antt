-- ===== src/Deploy/Streamed/Diagnosis.antt =====
-- `diagnoseDeployError` of internal/docker/deploy_stream.go.
use dockpal_agent.Base.{◌||◌, [], if◌then◌else◌}
use dockpal_agent.Base.Bytes.{Bytes, codes, contains}

unfoldable pub diagnose_deploy_error : Bytes → Bytes
diagnose_deploy_error e =
    if contains e (codes "address already in use") || contains e (codes "port is already allocated")
    then codes
        "Port conflict: another service is using this port. Stop the existing service or change the port mapping."
    else if contains e (codes "No such image")
    then codes "Image not found: check the image name and tag."
    else if contains e (codes "name is already in use")
    then codes
        "Container name conflict: a container with this name already exists. Remove it first."
    else if contains e (codes "permission denied")
    then codes
        "Permission denied: the agent may need elevated privileges, or the volume path doesn't exist."
    else if contains e (codes "network not found")
    then codes
        "Network not found: create the Docker network first, or remove the networks section from compose."
    else if contains e (codes "timeout") || contains e (codes "context deadline")
    then codes "Timeout: Docker daemon is slow or unresponsive. Check Docker service status."
    else if contains e (codes "disk space") || contains e (codes "no space left")
    then codes "Disk full: free up disk space with 'docker system prune' or remove unused images."
    else if contains e (codes "manifest unknown") || contains e (codes "not found")
    then codes
        "Image tag not found: the specified version may not exist. Try using ':latest' instead."
    else []
